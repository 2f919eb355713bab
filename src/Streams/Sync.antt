-- ===== src/Streams/Sync.antt =====
-- `sync_vacant_and_used_streams` lists the used ids: those that are not vacant, in ascending order,
-- then the sentinel.
use reactive_mutiny.Common.{
  ℕ, ◌+◌, ◌-◌, ◌<◌, ◌≤◌, ◌≡◌, refl, ap, ◌∙◌, List, [], ◌∷◌, ◌++◌, arith, length, length-append,
  length-drop, length-replicate, length-up_from, drop, replicate, up_from, count, ltb,
  if◌then◌else◌,
}
use reactive_mutiny.Streams.{u32_max, IsAscending, Sort, write_sentinels, sync_loop, sync_used}
use reactive_mutiny.Streams.Listing.{
  missing, missing_cong, Strictly, gaps, length-gaps, write_sentinels-append, sync_loop-gaps,
  gaps-missing,
}

ascending-above : (v : ℕ) (vs : List ℕ) → IsAscending (v ∷ vs) → (j : ℕ) → j < v → count j vs ≡ 0
ascending-above v [] h j lt = refl
ascending-above v (x ∷ vs) h j lt = ground (arith, ascending-above x vs h.1 j)

IsAscending-tail : (v : ℕ) (vs : List ℕ) → IsAscending (v ∷ vs) → IsAscending vs
IsAscending-tail v [] h = tt
IsAscending-tail v (x ∷ vs) h = h.1

-- Ascending ids below the limit with no repetition ascend strictly.
ascending-Strictly :
    (limit i : ℕ) (vs : List ℕ)
    → IsAscending vs
    → i ≤ limit
    → ((j : ℕ) → count j vs ≤ (if ltb j limit then 1 else 0))
    → ((j : ℕ) → j < i → count j vs ≡ 0)
    → Strictly limit i vs
ascending-Strictly limit i [] asc le once low = le
ascending-Strictly limit i (v ∷ vs) asc le once low = (
  first,
  below,
  ascending-Strictly limit (v + 1) vs (IsAscending-tail v vs asc) (omega (arith, below))
      (λ j. omega (arith, once j)) higher,
)
  where
    first : i ≤ v
    first = ground (arith, low v)

    below : v < limit
    below = ground (arith, once v)

    higher : (j : ℕ) → j < v + 1 → count j vs ≡ 0
    higher j lt = ground (arith, once v, ascending-above v vs asc j)

module _ (MAX_STREAMS : ℕ) (sort : Sort) where
  -- What `used_streams` holds for the given vacant ids.
  abbrev pub listing : List ℕ → List ℕ
  listing vacant =
      missing vacant (up_from MAX_STREAMS 0)
      ++ replicate (MAX_STREAMS - length (missing vacant (up_from MAX_STREAMS 0))) u32_max

  -- Whatever `used_streams` held before, it holds the used ids in ascending order, then the sentinels.
  pub sync_used-listing :
      (vacant used : List ℕ)
      → length used ≡ MAX_STREAMS
      → ((j : ℕ) → count j vacant ≤ (if ltb j MAX_STREAMS then 1 else 0))
      → sync_used MAX_STREAMS sort vacant used ≡ listing vacant
  unfolding sync_used
  sync_used-listing vacant used shape once =
      ap (λ r. write_sentinels (MAX_STREAMS - r.0) r.0 r.1) looped
      ∙ write_sentinels-append (MAX_STREAMS - (0 + n)) (0 + n) ids (drop n used) (omega arith)
          (omega (arith, length-drop n used))
      ∙ ap (λ k. ids ++ replicate k u32_max)
          (let e : MAX_STREAMS - (0 + n) ≡ MAX_STREAMS - n = omega arith in e)
      ∙ ap (λ l. l ++ replicate (MAX_STREAMS - length l) u32_max) used_ids
    where
      vs : List ℕ
      vs = sort.sort_unstable vacant

      ids : List ℕ
      ids = gaps MAX_STREAMS 0 vs

      n : ℕ
      n = length ids

      strict : Strictly MAX_STREAMS 0 vs
      strict =
          ascending-Strictly MAX_STREAMS 0 vs (sort.ascending vacant) (omega arith)
            (λ j. omega (arith, sort.same_elements j vacant, once j)) (λ j lt. absurd (omega arith))

      used_ids : gaps MAX_STREAMS 0 vs ≡ missing vacant (up_from MAX_STREAMS 0)
      used_ids =
          gaps-missing MAX_STREAMS 0 vs strict
          ∙ ap (λ n. missing vs (up_from n 0))
              (let e : MAX_STREAMS - 0 ≡ MAX_STREAMS = omega arith in e)
          ∙ missing_cong vs vacant MAX_STREAMS 0 (λ j lo. sort.same_elements j vacant)

      fits : length (gaps MAX_STREAMS 0 vs) ≤ length used
      fits = omega (arith, length-gaps MAX_STREAMS 0 vs strict)

      looped : sync_loop MAX_STREAMS vs 0 0 used ≡ (
        0 + length (gaps MAX_STREAMS 0 vs),
        gaps MAX_STREAMS 0 vs ++ drop (length (gaps MAX_STREAMS 0 vs)) used,
      )
      looped = sync_loop-gaps MAX_STREAMS 0 0 vs [] used strict refl fits

  length-missing : (vs is : List ℕ) → length (missing vs is) ≤ length is
  length-missing vs [] = omega arith
  length-missing vs (i ∷ is) = ground (arith, length-missing vs is)

  pub length-listing : (vacant : List ℕ) → length (listing vacant) ≡ MAX_STREAMS
  length-listing vacant = omega (
    arith,
    length-append ids (replicate (MAX_STREAMS - length ids) u32_max),
    length-replicate (MAX_STREAMS - length ids) u32_max,
    length-missing vacant (up_from MAX_STREAMS 0),
    length-up_from MAX_STREAMS 0,
  )
    where
      ids : List ℕ
      ids = missing vacant (up_from MAX_STREAMS 0)
