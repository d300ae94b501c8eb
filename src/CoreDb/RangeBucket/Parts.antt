-- ===== src/CoreDb/RangeBucket/Parts.antt =====
-- The parts of ranges that `put` of packages/core-db/src/app/range-bucket.ts puts back.
use pigi.Prelude.{
  ℕ, ◌≤◌, ◌<◌, ◌≡◌, refl, sym, ap, ◌∙◌, false, none, some, List, [], ◌∷◌, ◌++◌, ltb, leb,
  if◌then◌else◌, arith, Bool-cases, inl, inr, All, max,
}
use pigi.CoreDb.RangeBucket.{
  RangeEntry, Batch, put_key, batch, insertions, last_of, left_part, right_part,
}
use pigi.CoreDb.RangeBucket.Chains.{IsSpan, value_at, value_at_before, inside}
use pigi.CoreDb.RangeBucket.Store.{
  EndsBy-from, EndsAbove, EndsBelow, EndsBy, span-EndsAbove, span-EndsBy, EndsBy-EndsBelow,
  put_entry-among,
}
use pigi.CoreDb.RangeBucket.Reading.{Cut, Meets}

module _ {V : Type 0} where
  -- The last of the hits ends where they end at the latest, and behind every position that has a value.
  last_hit :
      (low mid end p : ℕ) (h : RangeEntry V) (hs : List (RangeEntry V))
      → IsSpan low (h ∷ hs) mid
      → All (λ e. e.start < end) (h ∷ hs)
      → end ≤ p
      → value_at (h ∷ hs) p ≡ (if ltb p (last_of h hs).end then some (last_of h hs).value else none)
  last_hit low mid end p h [] s m l = ground (arith, m.0, l)
  last_hit low mid end p h (g ∷ gs) s m l =
      let out : inside h p ≡ false = ground (arith, s.2.0, m.1.0, l) in
      rw out (last_hit h.end mid end p g gs s.2 m.1 l)

  last_end :
      (low mid : ℕ) (h : RangeEntry V) (hs : List (RangeEntry V))
      → IsSpan low (h ∷ hs) mid
      → (h.end ≤ (last_of h hs).end) × ((last_of h hs).end ≤ mid)
  last_end low mid h [] s = (omega arith, s.2)
  last_end low mid h (g ∷ gs) s =
      let (a, b) = last_end h.end mid g gs s.2 in (omega (arith, s.2.0, s.2.1, a), b)

  first_hit :
      (low mid start p : ℕ) (h : RangeEntry V) (hs : List (RangeEntry V))
      → IsSpan low (h ∷ hs) mid
      → start < h.end
      → p < start
      → value_at (h ∷ hs) p ≡ (if leb h.start p then some h.value else none)
  first_hit low mid start p h hs s m l = elim (Bool-cases (leb h.start p)) [
    | inl there ↦ ground (arith, there, m, l)
    | inr not_yet ↦
        let out : inside h p ≡ false = ground (arith, not_yet) in
        rw out (rw not_yet (value_at_before h.end mid p hs s.2 (omega (arith, m, l))))
  ]

  abbrev pub between : ℕ → ℕ → V → RangeEntry V
  between start end v = record { start = start; end = end; value = v }

  pub insertions-append :
      (xs ys : List (RangeEntry V)) → insertions (xs ++ ys) ≡ insertions xs ++ insertions ys
  unfolding insertions
  insertions-append [] ys = refl
  insertions-append (x ∷ xs) ys = ap (λ ops. put_key x ∷ ops) (insertions-append xs ys)

  -- A part of at most one range, and where its key is
  abbrev pub IsPart : List (RangeEntry V) → List (RangeEntry V) → List (RangeEntry V) → Type 0
  IsPart [] xs ys = Unit
  IsPart (e ∷ []) xs ys = EndsBelow e.end xs × EndsAbove e.end ys
  IsPart (e ∷ f ∷ es) xs ys = ⊥

  pub batch-part :
      (part : List (RangeEntry V)) (ops : List (Batch V)) (xs ys : List (RangeEntry V))
      → IsPart part xs ys
      → batch (insertions part ++ ops) (xs ++ ys) ≡ batch ops (xs ++ (part ++ ys))
  unfolding batch insertions
  batch-part [] ops xs ys h = refl
  batch-part (e ∷ []) ops xs ys h = ap (batch ops) (put_entry-among e xs ys h.0 h.1)
  batch-part (e ∷ f ∷ es) ops xs ys h = absurd h

  -- The parts that are put back, in place of the hits
  pub record Parts (start end from mid : ℕ) (before hits behind left right : List (RangeEntry V))
      : Type 0 where
    pub left_is_part : IsPart left before behind
    pub right_is_part : IsPart right (before ++ left) behind
    pub left_span : IsSpan from left start
    pub right_span : IsSpan end right (max end mid)
    pub left_value : (p : ℕ) → p < start → value_at left p ≡ value_at hits p
    pub right_value : (p : ℕ) → end ≤ p → value_at right p ≡ value_at hits p

  later-EndsAbove :
      (low high k : ℕ) (es : List (RangeEntry V))
      → IsSpan low es high
      → All (λ e. k ≤ e.start) es
      → EndsAbove k es
  later-EndsAbove low high k [] h l = tt
  later-EndsAbove low high k (e ∷ es) h l =
      (omega (arith, h.1, l.0), later-EndsAbove e.end high k es h.2 l.1)

  pub later-IsSpan :
      (low high k : ℕ) (es : List (RangeEntry V))
      → IsSpan low es high
      → All (λ e. k ≤ e.start) es
      → IsSpan (max k low) es (max k high)
  later-IsSpan low high k [] h l = ground (arith, h)
  later-IsSpan low high k (e ∷ es) h l =
      (ground (arith, h.0, l.0), h.1, wider e.end high (max k high) es h.2 (ground arith))
    where
      wider :
          (low high high' : ℕ) (es : List (RangeEntry V))
          → IsSpan low es high
          → high ≤ high'
          → IsSpan low es high'
      wider low high high' [] h m = omega (arith, h, m)
      wider low high high' (e ∷ es) h m = (h.0, h.1, wider e.end high high' es h.2 m)

  left_lem :
      (start from mid : ℕ) (h : RangeEntry V) (hs before behind : List (RangeEntry V))
      → EndsBy from before
      → EndsAbove start behind
      → IsSpan from (h ∷ hs) mid
      → start < h.end
      → from ≤ start
      → IsPart (left_part start (h ∷ hs)) before behind
        × IsSpan from (left_part start (h ∷ hs)) start
        × ((p : ℕ) → p < start → value_at (left_part start (h ∷ hs)) p ≡ value_at (h ∷ hs) p)
  unfolding left_part
  left_lem start from mid h hs before behind b a s m l = elim (Bool-cases (ltb h.start start)) [
    | inl earlier ↦ rw earlier (
      (EndsBy-EndsBelow from start before b (ground (arith, s.0, earlier)), a),
      (s.0, ground (arith, earlier), omega arith),
      λ p q. sym (first_hit from mid start p h hs s m q ∙ ground (arith, q)),
    )
    | inr not_earlier ↦
        rw not_earlier (
          tt,
          l,
          λ p q. sym (first_hit from mid start p h hs s m q ∙ ground (arith, q, not_earlier)),
        )
  ]

  right_lem :
      (start end from mid high : ℕ) (h : RangeEntry V) (hs before behind : List (RangeEntry V))
      → EndsBy start before
      → IsSpan mid behind high
      → IsSpan from (h ∷ hs) mid
      → All (λ e. e.start < end) (h ∷ hs)
      → start < h.end
      → IsPart (right_part end (h ∷ hs)) before behind
        × IsSpan end (right_part end (h ∷ hs)) (max end mid)
        × ((p : ℕ) → end ≤ p → value_at (right_part end (h ∷ hs)) p ≡ value_at (h ∷ hs) p)
  unfolding right_part
  right_lem start end from mid high h hs before behind b a s m l =
      let (grows, by_mid) = last_end from mid h hs s in
      elim (Bool-cases (ltb end (last_of h hs).end)) [
        | inl later ↦ rw later (
          (
            EndsBy-EndsBelow start (last_of h hs).end before b (omega (arith, l, grows)),
            span-EndsAbove mid high (last_of h hs).end behind a by_mid,
          ),
          (omega arith, ground (arith, later), ground (arith, by_mid)),
          λ p q. sym (last_hit from mid end p h hs s m q ∙ ground (arith, q)),
        )
        | inr not_later ↦ rw not_later (
          tt,
          ground arith,
          λ p q. sym (last_hit from mid end p h hs s m q ∙ ground (arith, q, not_later)),
        )
      ]

  pub EndsBy-append :
      (k : ℕ) (xs ys : List (RangeEntry V)) → EndsBy k xs → EndsBy k ys → EndsBy k (xs ++ ys)
  EndsBy-append k [] ys h m = m
  EndsBy-append k (x ∷ xs) ys h m = (h.0, EndsBy-append k xs ys h.1 m)

  EndsAbove-from : (k l : ℕ) (es : List (RangeEntry V)) → EndsAbove k es → l ≤ k → EndsAbove l es
  EndsAbove-from k l [] h m = tt
  EndsAbove-from k l (e ∷ es) h m = (omega (arith, h.0, m), EndsAbove-from k l es h.1 m)

  pub parts :
      (start end high : ℕ) (es : List (RangeEntry V)) (c : Cut start end 0 high es)
      → start < end
      → Parts start end c.from c.parts.mid c.before c.parts.hits c.parts.behind
          (left_part start c.parts.hits)
          (right_part end c.parts.hits)
  unfolding left_part right_part
  parts start end high es c l = at c.parts.hits c.parts.hits_span c.parts.meets
    where
      before_by : EndsBy c.from c.before
      before_by = span-EndsBy 0 c.from c.before c.before_span

      starts : (hs : List (RangeEntry V)) → All (Meets start end) hs → All (λ e. e.start < end) hs
      starts [] m = tt
      starts (h ∷ hs) m = (m.0.0, starts hs m.1)

      at :
          (hs : List (RangeEntry V))
          → IsSpan c.from hs c.parts.mid
          → All (Meets start end) hs
          → Parts start end c.from c.parts.mid c.before hs c.parts.behind
              (left_part start hs)
              (right_part end hs)
      at [] s m = record {
        left_is_part = tt;
        right_is_part = tt;
        left_span = c.from_le;
        right_span = ground arith;
        left_value = λ p q. refl;
        right_value = λ p q. refl;
      }
      at (h ∷ hs) s m =
          let above : EndsAbove end c.parts.behind =
            later-EndsAbove c.parts.mid high end c.parts.behind c.parts.behind_span
              c.parts.behind_later in
          let left =
            left_lem start c.from c.parts.mid h hs c.before c.parts.behind before_by
              (EndsAbove-from end start c.parts.behind above (omega (arith, l))) s m.0.1
              c.from_le in
          let below : EndsBy start (c.before ++ left_part start (h ∷ hs)) =
            EndsBy-append start c.before (left_part start (h ∷ hs))
              (EndsBy-from c.from start c.before before_by c.from_le)
              (span-EndsBy c.from start (left_part start (h ∷ hs)) left.1) in
          let right =
            right_lem start end c.from c.parts.mid high h hs (c.before ++ left_part start (h ∷ hs))
              c.parts.behind below c.parts.behind_span s (starts (h ∷ hs) m) m.0.1 in
          record {
            left_is_part = left.0;
            right_is_part = right.0;
            left_span = left.1;
            right_span = right.1;
            left_value = left.2;
            right_value = right.2;
          }
