-- ===== src/Index/Parked.antt =====
-- Parking a row keeps the content of every row and the whole journal.

use syncat.Prelude.{
  Bool-cases, Bytes, bytes_eq, bytes_eq_iff, find, IsMap, find-insert, insert-IsMap, ℕ, ◌≡◌, refl,
  sym, ap, ◌∙◌, inl, inr, true, false, Option, none, some, List, [], ◌∷◌, arith, bytes_key,
}
use syncat.Index.Latest.{latest}
use syncat.Index.Journal.{IsKeyed, insert-IsKeyed, find-IsKeyed, IsJournal}
use syncat.Index.{park_entry, park, park_all, rows_of, FileEntry, ShareStore}

find-park_entry :
    (q p : Bytes) (o : Option FileEntry) (s : ShareStore) (e : FileEntry)
    → find s.files q ≡ o
    → find s.files p ≡ some e
    → (f : FileEntry) × (find (park_entry q o s).files p ≡ some f)
      × (f.info ≡ e.info)
      × (f.ignored ≡ false → e.ignored ≡ false)
find-park_entry q p none s e there had = (e, had, refl, λ h. h)
find-park_entry q p (some x) s e there had =
    let parked : FileEntry = record x { ignored = true } in
    let found = find-insert q p parked s.files in
    elim (Bool-cases (bytes_eq q p)) [
      | inl same ↦ (
        parked,
        ground (arith, found, same),
        ground (arith, there, had, bytes_eq_iff q p, same),
        λ h. ground (arith, h),
      )
      | inr other ↦ (e, ground (arith, found, other, had), refl, λ h. h)
    ]

-- Parking a row leaves every row's content, and shows none that was parked.
pub find-park :
    (q p : Bytes) (s : ShareStore) (e : FileEntry)
    → find s.files p ≡ some e
    → (f : FileEntry) × (find (park q s).files p ≡ some f)
      × (f.info ≡ e.info)
      × (f.ignored ≡ false → e.ignored ≡ false)
unfolding park
find-park q p s e had = find-park_entry q p (find s.files q) s e refl had

find-unpark_entry :
    (q p : Bytes) (o : Option FileEntry) (s : ShareStore) (f : FileEntry)
    → find s.files q ≡ o
    → find (park_entry q o s).files p ≡ some f
    → (e : FileEntry) × (find s.files p ≡ some e) × (f.info ≡ e.info) × (f.ignored ≡ false → e ≡ f)
find-unpark_entry q p none s f there had = (f, had, refl, λ h. refl)
find-unpark_entry q p (some x) s f there had =
    let parked : FileEntry = record x { ignored = true } in
    let found = find-insert q p parked s.files in
    elim (Bool-cases (bytes_eq q p)) [
      | inl same ↦
          let is_parked : parked ≡ f = ground (arith, found, same, had) in
          (
            x,
            ground (arith, there, bytes_eq_iff q p, same),
            ap (λ g. g.info) (sym is_parked),
            λ shown. ground (arith, ap (λ (g : FileEntry). g.ignored) is_parked, shown),
          )
      | inr other ↦ (f, ground (arith, found, other, had), refl, λ h. refl)
    ]

-- What is stored of a path after a row is parked was stored before, and is unchanged unless it is
-- the row parked.
pub find-unpark :
    (q p : Bytes) (s : ShareStore) (f : FileEntry)
    → find (park q s).files p ≡ some f
    → (e : FileEntry) × (find s.files p ≡ some e) × (f.info ≡ e.info) × (f.ignored ≡ false → e ≡ f)
unfolding park
find-unpark q p s f had = find-unpark_entry q p (find s.files q) s f refl had

park_entry-journal :
    (q : Bytes) (o : Option FileEntry) (s : ShareStore)
    → ((park_entry q o s).journal ≡ s.journal)
      × ((park_entry q o s).next_seq ≡ s.next_seq)
      × ((park_entry q o s).epoch ≡ s.epoch)
park_entry-journal q none s = (refl, refl, refl)
park_entry-journal q (some e) s = (refl, refl, refl)

pub park-journal :
    (q : Bytes) (s : ShareStore)
    → ((park q s).journal ≡ s.journal)
      × ((park q s).next_seq ≡ s.next_seq)
      × ((park q s).epoch ≡ s.epoch)
unfolding park
park-journal q s = park_entry-journal q (find s.files q) s

park_entry-keys :
    (q : Bytes) (o : Option FileEntry) (s : ShareStore)
    → find s.files q ≡ o
    → IsMap s.files
    → IsKeyed s.files
    → IsMap (park_entry q o s).files × IsKeyed (park_entry q o s).files
park_entry-keys q none s there h k = (h, k)
park_entry-keys q (some e) s there h k =
    let parked : FileEntry = record e { ignored = true } in
    (
      insert-IsMap q parked s.files h,
      insert-IsKeyed q parked s.files (find-IsKeyed q e s.files k there) k,
    )

park-keys :
    (q : Bytes) (s : ShareStore)
    → IsMap s.files
    → IsKeyed s.files
    → IsMap (park q s).files × IsKeyed (park q s).files
unfolding park
park-keys q s h k = park_entry-keys q (find s.files q) s refl h k

pub park-IsJournal : (n : ℕ) (q : Bytes) (s : ShareStore) → IsJournal n s → IsJournal n (park q s)
park-IsJournal n q s h =
    let (journal, next, epoch) = park-journal q s in
    let (keys, keyed) = park-keys q s h.keys h.keyed in
    record {
      keys = keys;
      keyed = keyed;
      positive = h.positive;
      runs = rw (journal, next) h.runs;
      chronological = rw (journal) h.chronological;
      recorded = λ p r e.
          let (was, had, info) =
            h.recorded p r (ap (λ js. latest p (rows_of js)) (sym journal) ∙ e) in
          let (now, there, same, _) = find-park q p s was had in (now, there, same ∙ info);
      rooted = λ one p e there none_there.
          let (was, had, _, _) = find-unpark q p s e there in
          h.rooted one p was had (ap (λ js. latest p (rows_of js)) (sym journal) ∙ none_there);
    }

pub park_all-IsJournal :
    (n : ℕ) (ps : List Bytes) (s : ShareStore) → IsJournal n s → IsJournal n (park_all ps s)
unfolding park_all
park_all-IsJournal n [] s h = h
park_all-IsJournal n (p ∷ ps) s h = park_all-IsJournal n ps (park p s) (park-IsJournal n p s h)
