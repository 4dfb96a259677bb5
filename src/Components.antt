-- ===== src/Components.antt =====
-- Connected components by the spread of least labels, `cc` of app/cc/crg-cc.cpp. The threads run the
-- body of the loop over the vertices at the same time: a step here is one access of theirs to what
-- they share, and the steps of different vertices come in any order. A call of `atomicMin` is one
-- step.
pub mod Invariant
pub mod Kept
pub mod Reached
pub mod Correct
pub mod Measure
pub mod Terminates
mod Tests
use corograph.Base.{
  ℕ, zero, suc, ◌+◌, ◌-◌, ◌<◌, ◌≡◌, Bool, true, false, List, [], ◌∷◌, ◌++◌, map, min, ltb,
  if◌then◌else◌, update,
}
use corograph.Partition.{at, Csr}
use corograph.Sssp.{max_num}

pub record LNode : Type 0 where
  pub comp_current : ℕ
  pub comp_old : ℕ

-- Where the body of the loop is for a vertex: not begun, past the test that its label fell, past the
-- copy of the label, or past the read of `label_new`, with its calls of `atomicMin` to come.
pub data Phase : Type 0 where
  untested : Phase
  lowered : Phase
  copied : Phase
  finished : Phase

-- `spread` are the calls of `atomicMin` to come.
pub record State : Type 0 where
  pub label : ℕ → LNode
  pub phase : ℕ → Phase
  pub spread : List (ℕ × ℕ)
  pub changed : Bool

-- The loop over the edges of a vertex: their destinations.
unfoldable pub targets_from : List ℕ → (left e : ℕ) → List ℕ
targets_from ngh zero e = []
targets_from ngh (suc left) e = at ngh e ∷ targets_from ngh left (suc e)

unfoldable pub targets : Csr → ℕ → List ℕ
targets g src = targets_from g.ngh (at g.offset (src + 1) - at g.offset src) (at g.offset src)

-- One iteration of the outer loop, from its start.
abbrev pub round : (ℕ → LNode) → State
round label = record { label = label; phase = λ n. untested; spread = []; changed = false }

-- `main` gives each vertex its own number and a label before it that is greater than all.
abbrev pub init : State
init = round (λ n. record { comp_current = n; comp_old = max_num })

unfoldable pub test : ℕ → State → State
test src s =
    let sdata = s.label src in
    record s {
      phase =
          update s.phase src (if ltb sdata.comp_current sdata.comp_old then lowered else finished);
    }

unfoldable pub copy : ℕ → State → State
copy src s =
    let sdata = s.label src in
    record s {
      label = update s.label src (record sdata { comp_old = sdata.comp_current });
      phase = update s.phase src copied;
    }

unfoldable pub load : Csr → ℕ → State → State
load g src s =
    let label_new = (s.label src).comp_current in
    record s {
      phase = update s.phase src finished;
      spread = s.spread ++ map (λ dst. (dst, label_new)) (targets g src);
      changed = true;
    }

unfoldable pub lower : ℕ × ℕ → State → State
lower (dst, label_new) s =
    let ddata = s.label dst in
    record s {
      label = update s.label dst (record ddata { comp_current = min label_new ddata.comp_current });
    }

-- The round has ended.
abbrev pub Ended : ℕ → State → Type 0
Ended num_v s = (s.spread ≡ []) × ((v : ℕ) → v < num_v → s.phase v ≡ finished)

pub data Step (g : Csr) (s : State) : State → Type 0 where
  tested : (src : ℕ) → src < g.num_v → s.phase src ≡ untested → Step g s (test src s)
  copied_label : (src : ℕ) → src < g.num_v → s.phase src ≡ lowered → Step g s (copy src s)
  loaded : (src : ℕ) → src < g.num_v → s.phase src ≡ copied → Step g s (load g src s)
  minimized :
      (before after : List (ℕ × ℕ)) (call : ℕ × ℕ)
      → s.spread ≡ before ++ call ∷ after
      → Step g s (lower call (record s { spread = before ++ after }))
  again : Ended g.num_v s → s.changed ≡ true → Step g s (round s.label)

pub data Reach (g : Csr) (s : State) : State → Type 0 where
  here : Reach g s s
  next : {t u : State} → Reach g s t → Step g t u → Reach g s u

-- `cc` has returned.
abbrev pub Done : Csr → State → Type 0
Done g s = Ended g.num_v s × (s.changed ≡ false)
