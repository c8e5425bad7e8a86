-- ===== src/JobQueue/Paging.antt =====
-- `Jobs` shows one page of the files in progress followed by the queued ones.
use vaporcito.Base.{
  Option, none, some, ◌&&◌, ◌^◌, ◌%◌, ℕ, zero, suc, ◌+◌, ◌-◌, ◌*◌, ◌≤◌, ◌<◌, ◌≡◌, refl, sym, ap,
  ◌∙◌, List, [], ◌++◌, true, false, arith, min, length, take, drop, ltb, leb, if◌then◌else◌,
  append-nil, Bool-cases, inl, inr, length-append,
}
use vaporcito.Base.Int.{pos, ltb_ℤ, ◌+ℤ◌, ◌-ℤ◌, ◌*ℤ◌, wrap_int64, mod_int64}
use vaporcito.Base.Bytes.{Bytes}
use vaporcito.Base.Slices.{
  take-append, drop-append, take_all, drop_all, length-drop, length-take, take_room, map-drop,
  length-map,
}
use vaporcito.JobQueue.{
  Jobs, with_queued, JobQueue, JobQueueEntry, names, jobs, jobs_behind, queued_page,
}

-- All files, those in progress first.
abbrev pub all_names : JobQueue → List Bytes
all_names q = q.progress ++ names q.queued

-- The part of two joined lists behind `skip` items, `room` of it, by parts of the two lists.
module _ {ℓ} {A : Type ℓ} (skip room : ℕ) (xs ys : List A) where
  slice_left : skip + room ≤ length xs → take room (drop skip (xs ++ ys)) ≡ take room (drop skip xs)
  slice_left h =
      let e : room - length (drop skip xs) ≡ 0 = omega (arith, length-drop skip xs) in
      rw (drop-append skip xs ys, take-append room (drop skip xs) (drop (skip - length xs) ys), e)
        (append-nil (take room (drop skip xs)))

  slice_both :
      skip < length xs
      → length xs ≤ skip + room
      → take room (drop skip (xs ++ ys))
        ≡ take (length xs - skip) (drop skip xs) ++ take (room - (length xs - skip)) ys
  slice_both h k =
      let e : skip - length xs ≡ 0 = omega arith in
      let l = length-drop skip xs in
      rw (
        drop-append skip xs ys,
        e,
        take-append room (drop skip xs) ys,
        take_all room (drop skip xs) (omega arith),
        take_all (length xs - skip) (drop skip xs) (omega arith),
        l,
      )

  slice_right :
      length xs ≤ skip → take room (drop skip (xs ++ ys)) ≡ take room (drop (skip - length xs) ys)
  slice_right h = rw (drop-append skip xs ys, drop_all skip xs h)

end_fits : (a b : ℕ) → a + b < 2 ^ 63 → wrap_int64 (pos a +ℤ pos b) ≡ pos (a + b)
unfolding ◌+ℤ◌
end_fits a b h = ground arith

minus_fits : (a b : ℕ) → b ≤ a → pos a -ℤ pos b ≡ pos (a - b)
unfolding ◌-ℤ◌
minus_fits a b h = ground arith

stays_int64 : (a : ℕ) → a < 2 ^ 63 → wrap_int64 (pos a) ≡ pos a
stays_int64 a h = ground arith

times_fits : (a b : ℕ) → pos a *ℤ pos b ≡ pos (a * b)
unfolding ◌*ℤ◌
times_fits a b = ground arith

stays_mod : (n : ℕ) → n < 2 ^ 63 → mod_int64 (pos n) ≡ pos n
stays_mod n h = let e : n % 2 ^ 64 ≡ n = omega arith in rw e (ground arith)

lesser_fits :
    (a b : ℕ) → (if ltb_ℤ (pos a) (pos b) then pos a else pos b) ≡ pos (if ltb a b then a else b)
lesser_fits a b = ground arith

start_fits :
    (page perpage : ℕ)
    → 1 ≤ page
    → page < 2 ^ 63
    → (page - 1) * perpage < 2 ^ 63
    → mod_int64 (wrap_int64 (pos page -ℤ pos 1) *ℤ pos perpage) ≡ pos ((page - 1) * perpage)
start_fits page perpage h k m =
    rw
      (
        minus_fits page 1 h,
        stays_int64 (page - 1) (omega arith),
        times_fits (page - 1) perpage,
        stays_mod ((page - 1) * perpage) m,
      )
      refl

take_none : (n : ℕ) → ◌≡◌ {A = List Bytes} (take n []) []
take_none zero = refl
take_none (suc n) = refl

-- The queued part of a page.
page_names :
    (queue : List JobQueueEntry) (skip room : ℕ)
    → queued_page queue skip (if ltb (length queue - skip) room then length queue - skip else room)
      ≡ take room (drop skip (names queue))
page_names queue skip room =
    let l : length (drop skip (names queue)) ≡ length queue - skip =
      omega
        (arith, length-drop skip (names queue), length-map (λ (e : JobQueueEntry). e.name) queue) in
    ap (take _) (map-drop (λ e. e.name) skip queue)
    ∙ take_room room (length queue - skip) (drop skip (names queue)) l

module _ (q : JobQueue) (skip perpage : ℕ) where
  -- The page that starts behind so many files.
  abbrev pub Shows : Option Jobs → Type 0
  Shows none = ⊥
  Shows (some j) =
      (j.progress ++ j.queued ≡ take perpage (drop skip (all_names q)))
      × (j.skipped ≡ pos (min skip (length (all_names q))))

  length_all : length (all_names q) ≡ length q.progress + length q.queued
  length_all = omega (
    arith,
    length-append q.progress (names q.queued),
    length-map (λ (e : JobQueueEntry). e.name) q.queued,
  )

  Shows-nothing :
      length q.progress + length q.queued ≤ skip → Shows (jobs_behind q (pos skip) (pos perpage))
  unfolding jobs_behind
  Shows-nothing g =
      let l = length_all in
      let h : ltb_ℤ (pos skip) (pos (length q.progress + length q.queued)) ≡ false = ground arith in
      let m : min skip (length (all_names q)) ≡ length q.progress + length q.queued = omega arith in
      simp h
        (rw (drop_all skip (all_names q) (omega arith)) (sym (take_none perpage)), ap pos (sym m))

  Shows-progress :
      skip < length q.progress + length q.queued
      → skip + perpage < 2 ^ 63
      → skip + perpage ≤ length q.progress
      → Shows (jobs_behind q (pos skip) (pos perpage))
  unfolding jobs_behind
  Shows-progress lt fits g =
      let l = length_all in
      let h : ltb_ℤ (pos skip) (pos (length q.progress + length q.queued)) ≡ true = ground arith in
      let k : ltb_ℤ (pos (length q.progress)) (pos (skip + perpage)) ≡ false = ground arith in
      let s : leb skip (skip + perpage) && leb (skip + perpage) (length q.progress) ≡ true =
        ground arith in
      let n : ltb_ℤ (pos perpage) (pos 0) ≡ false = ground arith in
      let e : skip + perpage - skip ≡ perpage = omega arith in
      let m : min skip (length (all_names q)) ≡ skip = omega arith in
      simp (h, end_fits skip perpage fits, k, s, n, e)
        (append-nil _ ∙ sym (slice_left skip perpage q.progress (names q.queued) g), ap pos (sym m))

  -- The rest of a page behind what is shown of the files in progress.
  queued_rest :
      (shown : List Bytes) (from : ℕ)
      → from ≤ length q.queued
      → length shown ≤ perpage
      → shown ++ take (perpage - length shown) (drop from (names q.queued))
        ≡ take perpage (drop skip (all_names q))
      → skip ≤ length (all_names q)
      → Shows (with_queued q (pos skip) (pos perpage) from (some shown))
  queued_rest shown from h k e m =
      simp
        (
          minus_fits (length q.queued) from h,
          minus_fits perpage (length shown) k,
          lesser_fits (length q.queued - from) (perpage - length shown),
        )
        (
          ap (◌++◌ shown) (page_names q.queued from (perpage - length shown)) ∙ e,
          let n : min skip (length (all_names q)) ≡ skip = omega arith in ap pos (sym n),
        )

  Shows-both :
      length q.progress < skip + perpage
      → skip + perpage < 2 ^ 63
      → skip < length q.progress
      → Shows (jobs_behind q (pos skip) (pos perpage))
  unfolding jobs_behind
  Shows-both le fits lt =
      let l = length_all in
      let shown = take (length q.progress - skip) (drop skip q.progress) in
      let e : length shown ≡ length q.progress - skip =
        length-take _ (drop skip q.progress) (omega (arith, length-drop skip q.progress)) in
      let h : ltb_ℤ (pos skip) (pos (length q.progress + length q.queued)) ≡ true = ground arith in
      let k : ltb_ℤ (pos (length q.progress)) (pos (skip + perpage)) ≡ true = ground arith in
      let c : ltb_ℤ (pos skip) (pos (length q.progress)) ≡ true = ground arith in
      let s : leb skip (length q.progress) && leb (length q.progress) (length q.progress) ≡ true =
        ground arith in
      simp (h, end_fits skip perpage fits, k, c, s)
        (queued_rest shown 0 (omega arith) (omega arith)
          (rw e (sym (slice_both skip perpage q.progress (names q.queued) lt (omega arith))))
          (omega arith))

  Shows-queued :
      skip < length q.progress + length q.queued
      → skip + perpage < 2 ^ 63
      → length q.progress < skip + perpage
      → length q.progress ≤ skip
      → Shows (jobs_behind q (pos skip) (pos perpage))
  unfolding jobs_behind
  Shows-queued lt fits behind le =
      let l = length_all in
      let h : ltb_ℤ (pos skip) (pos (length q.progress + length q.queued)) ≡ true = ground arith in
      let k : ltb_ℤ (pos (length q.progress)) (pos (skip + perpage)) ≡ true = ground arith in
      let c : ltb_ℤ (pos skip) (pos (length q.progress)) ≡ false = ground arith in
      let e : perpage - 0 ≡ perpage = omega arith in
      simp (h, end_fits skip perpage fits, k, c)
        (queued_rest [] (skip - length q.progress) (omega arith) (omega arith)
          (rw e (sym (slice_right skip perpage q.progress (names q.queued) le))) (omega arith))

  Shows-page : skip + perpage < 2 ^ 63 → Shows (jobs_behind q (pos skip) (pos perpage))
  Shows-page fits = elim (Bool-cases (leb (length q.progress + length q.queued) skip)) [
    | inl h ↦ Shows-nothing (ground arith)
    | inr h ↦ elim (Bool-cases (leb (skip + perpage) (length q.progress))) [
      | inl k ↦ Shows-progress (ground arith) fits (ground arith)
      | inr k ↦ elim (Bool-cases (ltb skip (length q.progress))) [
        | inl m ↦ Shows-both (ground arith) fits (ground arith)
        | inr m ↦ Shows-queued (ground arith) fits (ground arith) (ground arith)
      ]
    ]
  ]

-- For a page from 1 on whose last place fits in an int, `Jobs` does not panic: it gives that slice of
-- all files, those in progress first, and says how many files stand before it, at most all of them.
pub jobs_lem :
    (q : JobQueue) (page perpage : ℕ)
    → 1 ≤ page
    → page < 2 ^ 63
    → (page - 1) * perpage + perpage < 2 ^ 63
    → Shows q ((page - 1) * perpage) perpage (jobs q (pos page) (pos perpage))
unfolding jobs
jobs_lem q page perpage one here fits =
    rw (start_fits page perpage one here (omega arith))
      (Shows-page q ((page - 1) * perpage) perpage fits)
