-- ===== src/Examples/Storage.antt =====
-- Storage and a clock for the examples: every call of the storage succeeds, the cron schedule comes
-- at every multiple of a thousand, and `sort.Slice` is an insertion sort.
use kterodactyl.Prelude.{
  ℕ, pos, ◌+◌, ◌*◌, ◌/◌, String, ◌≡◌, refl, ap, ◌∙◌, Bool, false, Option, none, some, List, [], ◌∷◌,
  Shuffle, Shuffle-refl, cons, swap, trans, Bool-cases, inl, inr, if◌then◌else◌, All-map, All-perm,
  Shuffle-sym,
}
use kterodactyl.Kube.Errors.{ok}
use kterodactyl.Kube.Objects.{Backup, Kind, game_servers}
use kterodactyl.Kube.Memory.{Memory, objects, find}
use kterodactyl.Kube.Memory.Satisfies.{memory_laws}
use kterodactyl.Backups.Storage.{Storage, Clock, IsStrictWeak, Sorted, ClockLaws, StorageLaws}

abbrev pub storage : Storage Memory String String
storage = record {
  new_client = λ endpoint key secret secure. ok endpoint;
  bucket_exists = λ c bucket m. (ok false, m);
  make_bucket = λ c bucket region m. (ok tt, m);
  put_object = λ c bucket key m. (ok (pos 7), m);
  get_object = λ c bucket key m. (ok key, m);
  remove_object = λ c bucket key m. (ok tt, m);
  gunzip = λ r. ok r;
  new_executor = λ r. ok tt;
  stream = λ r stdin m. ((ok tt, "", ""), m);
  piped = λ timeout write read m. let (w, m') = write m in let (r, m'') = read m' in ((w, r), m'');
  cached = λ m. m.storage_client;
  cache = λ c m. record m { storage_client = some c };
}

pub objects-storage_client :
    (j : Kind) (c : Option (String × String)) (m : Memory)
    → objects j (record m { storage_client = c }) ≡ objects j m
objects-storage_client game_servers c m = refl
objects-storage_client _ c m = refl

unfoldable pub storage_laws : StorageLaws memory_laws storage
unfolding memory_laws
storage_laws = record {
  bucket_exists_at = λ c bucket m j q. refl;
  make_bucket_at = λ c bucket region m j q. refl;
  put_object_at = λ c bucket key m j q. refl;
  get_object_at = λ c bucket key m j q. refl;
  remove_object_at = λ c bucket key m j q. refl;
  stream_at = λ r stdin m j q. refl;
  piped_at = λ timeout write read j q h k m. k (write m).1 ∙ h m;
  cache_at = λ c m j q. ap (find j q) (objects-storage_client j (some c) m);
  cached-cache = λ c m. refl;
}

module _ (less : Backup → Backup → Bool) where
  unfoldable insert_sorted : Backup → List Backup → List Backup
  insert_sorted x [] = x ∷ []
  insert_sorted x (y ∷ ys) =
      let rest = insert_sorted x ys in if less y x then y ∷ rest else x ∷ y ∷ ys

  unfoldable pub insertion_sort : List Backup → List Backup
  unfolding insert_sorted
  insertion_sort [] = []
  insertion_sort (x ∷ xs) = insert_sorted x (insertion_sort xs)

  insert_sorted-Shuffle : (x : Backup) (ys : List Backup) → Shuffle (insert_sorted x ys) (x ∷ ys)
  unfolding insert_sorted
  insert_sorted-Shuffle x [] = Shuffle-refl _
  insert_sorted-Shuffle x (y ∷ ys) = elim (Bool-cases (less y x)) [
    | inl e ↦ rw e (trans (cons refl (insert_sorted-Shuffle x ys)) (swap refl refl))
    | inr e ↦ rw e (Shuffle-refl _)
  ]

  insertion_sort-Shuffle : (xs : List Backup) → Shuffle (insertion_sort xs) xs
  unfolding insertion_sort
  insertion_sort-Shuffle [] = Shuffle-refl _
  insertion_sort-Shuffle (x ∷ xs) =
      trans (insert_sorted-Shuffle x (insertion_sort xs)) (cons refl (insertion_sort-Shuffle xs))

  insert_sorted-Sorted :
      (x : Backup) (ys : List Backup)
      → IsStrictWeak less
      → Sorted less ys
      → Sorted less (insert_sorted x ys)
  unfolding insert_sorted
  insert_sorted-Sorted x [] w h = (tt, tt)
  insert_sorted-Sorted x (y ∷ ys) w (first, rest) = elim (Bool-cases (less y x)) [
    | inl e ↦ rw e (
      All-perm (λ z. less z y ≡ false) (Shuffle-sym (insert_sorted-Shuffle x ys))
          (w.asymmetric y x e, first),
      insert_sorted-Sorted x ys w rest,
    )
    | inr e ↦ rw e (
      (
        e,
        All-map (λ z. less z y ≡ false) (λ z. less z x ≡ false) (λ z h. w.transitive z y x h e) ys
            first,
      ),
      (first, rest),
    )
  ]

  insertion_sort-Sorted : (xs : List Backup) → IsStrictWeak less → Sorted less (insertion_sort xs)
  unfolding insertion_sort
  insertion_sort-Sorted [] w = tt
  insertion_sort-Sorted (x ∷ xs) w =
      insert_sorted-Sorted x (insertion_sort xs) w (insertion_sort-Sorted xs w)

abbrev next_thousand : Option ℕ → Option ℕ
next_thousand none = some 0
next_thousand (some t) = some ((t / 1000 + 1) * 1000)

abbrev pub clock : Clock
clock = record {
  parse_schedule = λ text. ok next_thousand;
  parse_rfc3339 = λ text. none;
  format_rfc3339 = λ t. "time";
  format_compact = λ t. "time";
  sort_slice = insertion_sort;
}

pub clock_laws : ClockLaws clock
clock_laws = record {
  sort_slice-Shuffle = insertion_sort-Shuffle;
  sort_slice-Sorted = insertion_sort-Sorted;
}
