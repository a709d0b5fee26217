-- ===== src/Kube/Memory/Conditions.antt =====
-- `meta.SetStatusCondition` by its documentation: the condition of the type is replaced, or added,
-- and its transition time is the time of the call where the status changes.
use kterodactyl.Prelude.{
  ℕ, String, ◌==◌, ◌≡◌, ◌≢◌, refl, Bool, true, false, some, List, [], ◌∷◌, arith, eq_iff, eq_refl,
  Bool-cases, inl, inr, if◌then◌else◌,
}
use kterodactyl.Kube.Meta.{
  Condition, ConditionStatus, is_true, is_false, is_unknown, find_condition,
}

same_status : ConditionStatus → ConditionStatus → Bool
same_status is_true is_true = true
same_status is_false is_false = true
same_status is_unknown is_unknown = true
same_status _ _ = false

replaced : ℕ → Condition → Condition → Condition
unfolding same_status
replaced now c old = record c {
  last_transition_time = if same_status old.status c.status then old.last_transition_time else now;
}

unfoldable pub set_status_condition : ℕ → Condition → List Condition → List Condition
unfolding replaced
set_status_condition now c [] = record c { last_transition_time = now } ∷ []
set_status_condition now c (d ∷ ds) =
    if d.type == c.type then replaced now c d ∷ ds else d ∷ set_status_condition now c ds

pub set_condition_same :
    (now : ℕ) (c : Condition) (cs : List Condition)
    → (d : Condition) × (find_condition c.type (set_status_condition now c cs) ≡ some d)
      × (d.status ≡ c.status)
      × (d.reason ≡ c.reason)
      × (d.message ≡ c.message)
      × ((o : Condition)
          → find_condition c.type cs ≡ some o
          → o.status ≡ c.status
          → d.last_transition_time ≡ o.last_transition_time)
unfolding find_condition set_status_condition
set_condition_same now c [] =
    (record c { last_transition_time = now }, rw eq_refl, refl, refl, refl, λ o h. cc)
set_condition_same now c (d ∷ ds) = elim (Bool-cases (d.type == c.type)) [
  | inl h ↦ (replaced now c d, rw (h, eq_refl), refl, refl, refl, λ o e k. ground arith)
  | inr h ↦ rw (h, h) (set_condition_same now c ds)
]

pub set_condition_other :
    (now : ℕ) (c : Condition) (cs : List Condition) (t : String)
    → t ≢ c.type
    → find_condition t (set_status_condition now c cs) ≡ find_condition t cs
unfolding find_condition set_status_condition
set_condition_other now c [] t n = ground (arith, eq_iff c.type t)
set_condition_other now c (d ∷ ds) t n = ground (
  arith,
  eq_iff c.type t,
  eq_iff d.type t,
  eq_iff d.type c.type,
  set_condition_other now c ds t n,
)
