-- ===== src/Backups/Keeping.antt =====
-- Which backups the retention keeps, and which it deletes.
use kterodactyl.Prelude.{
  ℕ, ◌≤◌, zero, suc, ◌≡◌, refl, sym, subst, inl, inr, Bool, true, false, Option, none, some, List,
  [], ◌∷◌, ◌++◌, length, leb, leb→le, arith, Bool-cases, All, take, drop, take-append-drop,
  length-take, length-perm, All-drop, All-map, All-perm, Shuffle, if◌then◌else◌, Shuffle-refl,
  Shuffle-sym, All-of, All-both,
}
use Prim.Native.Nat.{min}
use mathlib.Core.List.{append-nil}
use kterodactyl.Lifecycle.{BackupState, completed, same_backup_state}
use kterodactyl.Kube.Objects.{Backup}
use kterodactyl.Backups.Storage.{Clock, IsStrictWeak, Sorted, ClockLaws}
use kterodactyl.Backups.Retention.{completed_of, time_after, is_newer, expired}

time_after_asym : (a b : Option ℕ) → time_after a b ≡ true → time_after b a ≡ false
unfolding time_after
time_after_asym none b h = cc
time_after_asym (some a) none h = refl
time_after_asym (some a) (some b) h = ground arith

time_after_trans :
    (a b c : Option ℕ) → time_after a b ≡ false → time_after b c ≡ false → time_after a c ≡ false
unfolding time_after
time_after_trans none b c h k = refl
time_after_trans (some a) none c h k = cc
time_after_trans (some a) (some b) none h k = cc
time_after_trans (some a) (some b) (some c) h k = ground arith

is_newer-IsStrictWeak : IsStrictWeak is_newer
unfolding is_newer
is_newer-IsStrictWeak = record {
  asymmetric = λ a b h. time_after_asym a.meta.creation_timestamp b.meta.creation_timestamp h;
  transitive = λ a b c h k.
      time_after_trans a.meta.creation_timestamp b.meta.creation_timestamp c.meta.creation_timestamp
        h k;
}

-- In a sorted list no element behind an index is less than one before it.
Sorted-split :
    (less : Backup → Backup → Bool) (n : ℕ) (xs : List Backup)
    → Sorted less xs
    → All (λ old. All (λ kept. less old kept ≡ false) (take n xs)) (drop n xs)
Sorted-split less zero xs h = All-of _ (λ old. tt) xs
Sorted-split less (suc n) [] h = tt
Sorted-split less (suc n) (x ∷ xs) (first, rest) =
    All-both (λ old. less old x ≡ false) (λ old. All (λ kept. less old kept ≡ false) (take n xs))
      (drop n xs) (All-drop _ n xs first) (Sorted-split less n xs rest)

abbrev pub kept_of : Clock → ℕ → List Backup → List Backup
kept_of clock max_count items =
    let done = completed_of items in
    if leb (length done) max_count then done else take max_count (clock.sort_slice is_newer done)

-- One creation time is not after another; a missing one is before every time.
abbrev pub NoLater : Option ℕ → Option ℕ → Type 0
NoLater none b = Unit
NoLater (some a) none = ⊥
NoLater (some a) (some b) = a ≤ b

time_after-NoLater : (a b : Option ℕ) → time_after a b ≡ false → NoLater a b
unfolding time_after
time_after-NoLater none b h = tt
time_after-NoLater (some a) none h = cc
time_after-NoLater (some a) (some b) h = ground arith

abbrev pub AllNoLater : List Backup → List Backup → Type 0
AllNoLater olds kepts =
    All
      (λ old. All (λ kept. NoLater old.meta.creation_timestamp kept.meta.creation_timestamp) kepts)
      olds

Sorted-NoLater :
    (n : ℕ) (xs : List Backup) → Sorted is_newer xs → AllNoLater (drop n xs) (take n xs)
unfolding is_newer
Sorted-NoLater n xs h =
    All-map (λ old. All (λ kept. is_newer old kept ≡ false) (take n xs)) _
      (λ old.
        All-map (λ kept. is_newer old kept ≡ false) _
          (λ kept. time_after-NoLater old.meta.creation_timestamp kept.meta.creation_timestamp)
          (take n xs))
      (drop n xs) (Sorted-split is_newer n xs h)

module _ {clock : Clock} (cl : ClockLaws clock) (max_count : ℕ) (items : List Backup) where
  -- The completed backups of a list fall into those that the retention keeps and those that it
  -- deletes, each once. It keeps all of them up to the number to keep, and as many as that number
  -- if there are more; and no deleted backup was created after a kept one.
  pub expired_oldest :
      Shuffle (kept_of clock max_count items ++ expired clock max_count items) (completed_of items)
      × (length (kept_of clock max_count items) ≡ min max_count (length (completed_of items)))
      × AllNoLater (expired clock max_count items) (kept_of clock max_count items)
  unfolding expired
  expired_oldest =
      let done = completed_of items in
      let sorted = clock.sort_slice is_newer done in
      let same = cl.sort_slice-Shuffle is_newer done in
      elim (Bool-cases (leb (length done) max_count)) [
        | inl few ↦ rw few (
          subst (λ xs. Shuffle xs done) (sym (append-nil done)) (Shuffle-refl done),
          omega (arith, leb→le (length done) max_count few),
          tt,
        )
        | inr many ↦ rw many (
          subst (λ xs. Shuffle xs done) (sym (take-append-drop max_count sorted)) same,
          omega (arith, length-take max_count sorted, length-perm same),
          Sorted-NoLater max_count sorted
              (cl.sort_slice-Sorted is_newer done is_newer-IsStrictWeak),
        )
      ]

same_completed :
    (state : BackupState) → same_backup_state state completed ≡ true → state ≡ completed
unfolding same_backup_state
same_completed completed h = refl
same_completed _ h = cc

-- What the list that the retention deletes from holds, is completed.
completed_of-All :
    (P : Backup → Type 0) (items : List Backup)
    → All P items
    → All (λ b. P b × (b.status.state ≡ completed)) (completed_of items)
unfolding completed_of
completed_of-All P [] h = tt
completed_of-All P (b ∷ items) (here, rest) =
    elim (Bool-cases (same_backup_state b.status.state completed)) [
      | inl e ↦ rw e ((here, same_completed _ e), completed_of-All P items rest)
      | inr e ↦ rw e (completed_of-All P items rest)
    ]

pub expired-All :
    {clock : Clock} (cl : ClockLaws clock) (max_count : ℕ) (P : Backup → Type 0)
    (items : List Backup)
    → All P items
    → All (λ b. P b × (b.status.state ≡ completed)) (expired clock max_count items)
unfolding expired
expired-All {clock} cl max_count P items h =
    elim (Bool-cases (leb (length (completed_of items)) max_count)) [
      | inl few ↦ rw few tt
      | inr many ↦ rw many (
          All-drop (λ b. P b × (b.status.state ≡ completed)) max_count _
            (All-perm _ (Shuffle-sym (cl.sort_slice-Shuffle is_newer (completed_of items)))
              (completed_of-All P items h)))
    ]
