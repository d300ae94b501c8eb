-- ===== src/CoreDb/RangeBucket/Putting.antt =====
-- What `put` and `del` of packages/core-db/src/app/range-bucket.ts leave, position by position.
use pigi.Prelude.{
  ℕ, ◌≤◌, ◌<◌, ◌≡◌, refl, sym, ap, ◌∙◌, true, false, ◌&&◌, some, List, [], ◌∷◌, ◌++◌, ltb, leb,
  if◌then◌else◌, arith, Bool-cases, inl, inr, All, max,
}
use mathlib.Core.List.{append-nil, append_assoc}
use pigi.CoreDb.RangeBucket.{
  RangeEntry, is_key, batch, deletions, insertions, left_part, right_part, put, del,
}
use pigi.CoreDb.RangeBucket.Chains.{
  IsSpan, IsSpan-append, value_at, value_at_before, value_at_behind, inside,
}
use pigi.CoreDb.RangeBucket.Store.{
  EndsBy-from, span-EndsAbove, span-EndsBy, EndsBy-EndsBelow, batch-deletions, put_entry-among,
}
use pigi.CoreDb.RangeBucket.Reading.{
  first_of-none, Cut, cut, get-hits, first_of, value_at-first_of, value_at_left, value_at_right,
  none_before,
}
use pigi.CoreDb.RangeBucket.Parts.{
  parts, between, insertions-append, batch-part, later-IsSpan, EndsBy-append,
}

module _ {V : Type 0} where
  tail-IsSpan :
      (start end high : ℕ) (es : List (RangeEntry V)) (c : Cut start end 0 high es)
      → start < end
      → IsSpan end (right_part end c.parts.hits ++ c.parts.behind) (max end high)
  tail-IsSpan start end high es c l =
      IsSpan-append end (max end c.parts.mid) (max end high) (right_part end c.parts.hits)
        c.parts.behind (parts start end high es c l).right_span
        (later-IsSpan c.parts.mid high end c.parts.behind c.parts.behind_span c.parts.behind_later)

  new-IsSpan :
      (start end high : ℕ) (value : V) (es : List (RangeEntry V)) (c : Cut start end 0 high es)
      → start < end
      → IsSpan start
          (between start end value ∷ (right_part end c.parts.hits ++ c.parts.behind))
          (max end high)
  new-IsSpan start end high value es c l = (omega arith, l, tail-IsSpan start end high es c l)

  -- The store after a range is put: what was before, the left part, the range, the right part, and what
  -- was behind
  abbrev after :
      (start end high : ℕ) (value : V) (es : List (RangeEntry V))
      → Cut start end 0 high es
      → List (RangeEntry V)
  after start end high value es c =
      c.before
      ++ (left_part start c.parts.hits
          ++ (between start end value ∷ (right_part end c.parts.hits ++ c.parts.behind)))

  batch_lem :
      (start end high : ℕ) (value : V) (es : List (RangeEntry V)) (c : Cut start end 0 high es)
      → start < end
      → batch
          (deletions c.parts.hits
            ++ insertions (
                left_part start c.parts.hits
                ++ (right_part end c.parts.hits ++ between start end value ∷ [])))
          es
        ≡ after start end high value es c
  unfolding batch insertions
  batch_lem start end high value es c l =
      let left = left_part start c.parts.hits in
      let right = right_part end c.parts.hits in
      let new = between start end value in
      let q = parts start end high es c l in
      let before_by = span-EndsBy 0 c.from c.before c.before_span in
      let below =
        EndsBy-append start c.before left (EndsBy-from c.from start c.before before_by c.from_le)
          (span-EndsBy c.from start left q.left_span) in
      let above =
        span-EndsAbove end (max end high) end (right ++ c.parts.behind)
          (tail-IsSpan start end high es c l) (omega arith) in
      ap (batch (deletions c.parts.hits ++ insertions (left ++ (right ++ new ∷ []))))
        (c.whole ∙ ap (λ xs. c.before ++ xs) c.parts.both)
      ∙ batch-deletions (insertions (left ++ (right ++ new ∷ []))) c.from c.parts.mid high c.before
          c.parts.hits c.parts.behind before_by c.parts.hits_span c.parts.behind_span
      ∙ ap (λ ops. batch ops (c.before ++ c.parts.behind))
          (insertions-append left (right ++ new ∷ [])
            ∙ ap (λ ops. insertions left ++ ops) (insertions-append right (new ∷ [])))
      ∙ batch-part left (insertions right ++ insertions (new ∷ [])) c.before c.parts.behind
          q.left_is_part
      ∙ ap (batch (insertions right ++ insertions (new ∷ [])))
          (sym (append_assoc c.before left c.parts.behind))
      ∙ batch-part right (insertions (new ∷ [])) (c.before ++ left) c.parts.behind q.right_is_part
      ∙ put_entry-among new (c.before ++ left) (right ++ c.parts.behind)
          (EndsBy-EndsBelow start end (c.before ++ left) below l) above
      ∙ append_assoc c.before left (new ∷ (right ++ c.parts.behind))

  put_store :
      (key_length start end high : ℕ) (value : V) (es : List (RangeEntry V))
      (c : Cut start end 0 high es)
      → start < end
      → is_key key_length end ≡ true
      → put key_length start end value es ≡ some (after start end high value es c)
  unfolding put
  put_store key_length start end high value es c l k =
      rw (put, get-hits key_length start end high es l k c)
        (rw k (ap some (batch_lem start end high value es c l)))

  after-IsSpan :
      (start end high : ℕ) (value : V) (es : List (RangeEntry V)) (c : Cut start end 0 high es)
      → start < end
      → IsSpan 0 (after start end high value es c) (max end high)
  after-IsSpan start end high value es c l =
      let left = left_part start c.parts.hits in
      let new = between start end value ∷ (right_part end c.parts.hits ++ c.parts.behind) in
      IsSpan-append 0 c.from (max end high) c.before (left ++ new) c.before_span (
        IsSpan-append c.from start (max end high) left new (parts start end high es c l).left_span
          (new-IsSpan start end high value es c l))

  after-value_at :
      (start end high : ℕ) (value : V) (es : List (RangeEntry V)) (c : Cut start end 0 high es)
      → start < end
      → (p : ℕ)
      → value_at (after start end high value es c) p
        ≡ (if inside (between start end value) p then some value else value_at es p)
  after-value_at start end high value es c l p =
      let left = left_part start c.parts.hits in
      let right = right_part end c.parts.hits in
      let tail = right ++ c.parts.behind in
      let q = parts start end high es c l in
      let pieces =
        value_at-first_of c.before (left ++ (between start end value ∷ tail)) p
        ∙ ap (first_of (value_at c.before p))
            (value_at-first_of left (between start end value ∷ tail) p) in
      elim (Bool-cases (ltb p start)) [
        | inl early ↦
            let out : inside (between start end value) p ≡ false = ground (arith, early) in
            let no_new =
              value_at_before start (max end high) p (between start end value ∷ tail)
                (new-IsSpan start end high value es c l) (ground (arith, early)) in
            let same = q.left_value p (ground (arith, early)) in
            let was = value_at_left start end high es c p (ground (arith, early, l)) in
            pieces
            ∙ ap (λ o. first_of (value_at c.before p) (first_of (value_at left p) o)) no_new
            ∙ ap (first_of (value_at c.before p)) (first_of-none (value_at left p) ∙ same)
            ∙ sym was
            ∙ rw out refl
        | inr not_early ↦
            let no_before = none_before start end high es c p (ground (arith, not_early)) in
            let no_left =
              value_at_behind c.from start p left q.left_span (ground (arith, not_early)) in
            pieces
            ∙ ap
                (λ o.
                  first_of o
                    (first_of (value_at left p) (value_at (between start end value ∷ tail) p)))
                no_before
            ∙ ap (λ o. first_of o (value_at (between start end value ∷ tail) p)) no_left
            ∙ (elim (Bool-cases (ltb p end))
                as (λ _.
                  value_at (between start end value ∷ tail) p
                  ≡ (if inside (between start end value) p then some value else value_at es p)) [
                    | inl here ↦
                        let in_it : inside (between start end value) p ≡ true =
                          ground (arith, not_early, here) in
                        rw in_it refl
                    | inr past ↦
                        let out : inside (between start end value) p ≡ false =
                          ground (arith, past) in
                        rw out (
                          value_at-first_of right c.parts.behind p
                          ∙ ap (λ o. first_of o (value_at c.parts.behind p))
                              (q.right_value p (ground (arith, past)))
                          ∙ sym (value_at_right start end high es c p (ground (arith, not_early))))
                  ])
      ]

  -- For ranges in order that do not overlap, and a range that is not empty and whose end is a key: `put`
  -- succeeds, the ranges are again in order and do not overlap, and a position has the new value in the
  -- range and what it had before anywhere else.
  pub put-value_at :
      (key_length start end high : ℕ) (value : V) (es : List (RangeEntry V))
      → start < end
      → is_key key_length end ≡ true
      → IsSpan 0 es high
      → (es' : List (RangeEntry V)) × (put key_length start end value es ≡ some es')
        × IsSpan 0 es' (max end high)
        × ((p : ℕ)
            → value_at es' p ≡ (if leb start p && ltb p end then some value else value_at es p))
  put-value_at key_length start end high value es l k h =
      let c = cut start end 0 high es l h (omega arith) in
      (
        after start end high value es c,
        put_store key_length start end high value es c l k,
        after-IsSpan start end high value es c l,
        after-value_at start end high value es c l,
      )

  -- For ranges in order that do not overlap, and a range that is not empty and whose end is a key: `del`
  -- gives the ranges that intersect it and removes them, as a whole, where they reach out of it too. The
  -- ranges that stay are in order and do not intersect it.
  pub del-ranges :
      (key_length start end high : ℕ) (es : List (RangeEntry V))
      → start < end
      → is_key key_length end ≡ true
      → IsSpan 0 es high
      → (before hits behind : List (RangeEntry V)) × (es ≡ before ++ (hits ++ behind))
        × (del key_length start end es ≡ some (hits, before ++ behind))
        × All (λ e. (e.start < end) × (start < e.end)) hits
        × All (λ e. e.end ≤ start) before
        × All (λ e. end ≤ e.start) behind
  unfolding del batch
  del-ranges key_length start end high es l k h =
      let c = cut start end 0 high es l h (omega arith) in
      let before_by = span-EndsBy 0 c.from c.before c.before_span in
      let emptied =
        ap (λ ops. batch ops es) (sym (append-nil (deletions c.parts.hits)))
        ∙ ap (batch (deletions c.parts.hits ++ []))
            (c.whole ∙ ap (λ xs. c.before ++ xs) c.parts.both)
        ∙ batch-deletions [] c.from c.parts.mid high c.before c.parts.hits c.parts.behind before_by
            c.parts.hits_span c.parts.behind_span in
      (
        c.before,
        c.parts.hits,
        c.parts.behind,
        c.whole ∙ ap (λ xs. c.before ++ xs) c.parts.both,
        rw (del, get-hits key_length start end high es l k c)
            (ap (λ x. some (c.parts.hits, x)) emptied),
        c.parts.meets,
        EndsBy-from c.from start c.before before_by c.from_le,
        c.parts.behind_later,
      )
