-- ===== src/CoreDb/RangeBucket/Reading.antt =====
-- What `get` of packages/core-db/src/app/range-bucket.ts finds: the ranges that intersect, between those
-- that end before and those that begin behind.
use pigi.Prelude.{
  ℕ, ◌≤◌, ◌<◌, ◌≡◌, ◌↔◌, refl, ap, ◌∙◌, true, false, Option, none, some, List, [], ◌∷◌, ◌++◌, ltb,
  arith, Bool-cases, inl, inr, All, max,
}
use pigi.CoreDb.RangeBucket.{
  RangeEntry, intersects, is_key, seek, take_intersecting, get, has_data_in_range,
}
use pigi.CoreDb.RangeBucket.Chains.{IsSpan, value_at, value_at-append, value_at_behind, inside}
use pigi.CoreDb.RangeBucket.Store.{EndsAbove, span-EndsAbove}

module _ {V : Type 0} where
  abbrev pub Meets : ℕ → ℕ → RangeEntry V → Type 0
  Meets start end e = (e.start < end) × (start < e.end)

  -- Ranges that intersect, and those behind
  pub record Hits (start end low high : ℕ) (es : List (RangeEntry V)) : Type 0 where
    pub hits : List (RangeEntry V)
    pub behind : List (RangeEntry V)
    pub mid : ℕ
    pub both : es ≡ hits ++ behind
    pub found : take_intersecting start end es ≡ hits
    pub hits_span : IsSpan low hits mid
    pub behind_span : IsSpan mid behind high
    pub meets : All (Meets start end) hits
    pub behind_later : All (λ e. end ≤ e.start) behind

  All-later :
      (low high k : ℕ) (es : List (RangeEntry V))
      → IsSpan low es high
      → k ≤ low
      → All (λ e. k ≤ e.start) es
  All-later low high k [] h l = tt
  All-later low high k (e ∷ es) h l =
      (omega (arith, h.0, l), All-later e.end high k es h.2 (omega (arith, h.0, h.1, l)))

  take_hits :
      (start end low high : ℕ) (es : List (RangeEntry V))
      → start < end
      → IsSpan low es high
      → EndsAbove start es
      → Hits start end low high es
  unfolding take_intersecting
  take_hits start end low high [] l h a = record {
    hits = [];
    behind = [];
    mid = low;
    both = refl;
    found = refl;
    hits_span = omega arith;
    behind_span = h;
    meets = tt;
    behind_later = tt;
  }
  take_hits start end low high (e ∷ es) l h a = elim (Bool-cases (ltb e.start end)) [
    | inl near ↦
        let r = take_hits start end e.end high es l h.2 a.1 in
        let meet : intersects start end e.start e.end ≡ true = ground (arith, near, l, h.1, a.0) in
        record {
          hits = e ∷ r.hits;
          behind = r.behind;
          mid = r.mid;
          both = ap (λ xs. e ∷ xs) r.both;
          found = rw meet (ap (λ xs. e ∷ xs) r.found);
          hits_span = (h.0, h.1, r.hits_span);
          behind_span = r.behind_span;
          meets = ((ground (arith, near), a.0), r.meets);
          behind_later = r.behind_later;
        }
    | inr far ↦
        let miss : intersects start end e.start e.end ≡ false = ground (arith, far) in
        record {
          hits = [];
          behind = e ∷ es;
          mid = low;
          both = refl;
          found = rw miss refl;
          hits_span = omega arith;
          behind_span = h;
          meets = tt;
          behind_later =
              (ground (arith, far), All-later e.end high end es h.2 (ground (arith, far, h.1)));
        }
  ]

  -- The store in three parts
  pub record Cut (start end low high : ℕ) (es : List (RangeEntry V)) : Type 0 where
    pub before : List (RangeEntry V)
    pub from : ℕ
    pub rest : List (RangeEntry V)
    pub whole : es ≡ before ++ rest
    pub sought : seek start es ≡ rest
    pub before_span : IsSpan low before from
    pub from_le : from ≤ start
    pub parts : Hits start end from high rest

  pub cut :
      (start end low high : ℕ) (es : List (RangeEntry V))
      → start < end
      → IsSpan low es high
      → low ≤ start
      → Cut start end low high es
  unfolding seek
  cut start end low high [] l h m = record {
    before = [];
    from = low;
    rest = [];
    whole = refl;
    sought = refl;
    before_span = omega arith;
    from_le = m;
    parts = take_hits start end low high [] l h tt;
  }
  cut start end low high (e ∷ es) l h m = elim (Bool-cases (ltb start e.end)) [
    | inl there ↦ record {
      before = [];
      from = low;
      rest = e ∷ es;
      whole = refl;
      sought = rw there refl;
      before_span = omega arith;
      from_le = m;
      parts =
          take_hits start end low high (e ∷ es) l h
            (ground (arith, there), span-EndsAbove e.end high start es h.2 (ground (arith, there)));
    }
    | inr passed ↦
        let c = cut start end e.end high es l h.2 (ground (arith, passed)) in
        record {
          before = e ∷ c.before;
          from = c.from;
          rest = c.rest;
          whole = ap (λ xs. e ∷ xs) c.whole;
          sought = rw passed c.sought;
          before_span = (h.0, h.1, c.before_span);
          from_le = c.from_le;
          parts = c.parts;
        }
  ]

  -- `get` gives the ranges that intersect.
  pub get-hits :
      (key_length start end high : ℕ) (es : List (RangeEntry V))
      → start < end
      → is_key key_length end ≡ true
      → (c : Cut start end 0 high es) → get key_length start end es ≡ some c.parts.hits
  unfolding get
  get-hits key_length start end high es l k c = at c.rest c.sought c.parts.found
    where
      at :
          (r : List (RangeEntry V))
          → seek start es ≡ r
          → take_intersecting start end r ≡ c.parts.hits
          → get key_length start end es ≡ some c.parts.hits
      at [] f g = ground (arith, l, k, f, g)
      at (x ∷ xs) f g = ground (arith, l, k, f, g)

  value_at_later :
      (k p : ℕ) (es : List (RangeEntry V))
      → All (λ e. k ≤ e.start) es
      → p < k
      → value_at es p ≡ none
  value_at_later k p [] h l = refl
  value_at_later k p (e ∷ es) h l =
      let out : inside e p ≡ false = ground (arith, h.0, l) in rw out (value_at_later k p es h.1 l)

  abbrev pub first_of : Option V → Option V → Option V
  first_of none o = o
  first_of (some v) o = some v

  pub first_of-none : (o : Option V) → first_of o none ≡ o
  first_of-none none = refl
  first_of-none (some v) = refl

  pub value_at-first_of :
      (xs ys : List (RangeEntry V)) (p : ℕ)
      → value_at (xs ++ ys) p ≡ first_of (value_at xs p) (value_at ys p)
  value_at-first_of xs ys p = value_at-append xs ys p ∙ same (value_at xs p)
    where
      same :
          (o : Option V)
          → elim o [ none ↦ value_at ys p | some v ↦ some v ] ≡ first_of o (value_at ys p)
      same none = refl
      same (some v) = refl

  module _ (start end high : ℕ) (es : List (RangeEntry V)) (c : Cut start end 0 high es) where
    all_parts :
        (p : ℕ)
        → value_at es p
          ≡ first_of
              (value_at c.before p)
              (first_of (value_at c.parts.hits p) (value_at c.parts.behind p))
    all_parts p =
        ap (λ xs. value_at xs p) (c.whole ∙ ap (λ xs. c.before ++ xs) c.parts.both)
        ∙ value_at-first_of c.before (c.parts.hits ++ c.parts.behind) p
        ∙ ap (first_of (value_at c.before p)) (value_at-first_of c.parts.hits c.parts.behind p)

    pub none_before : (p : ℕ) → start ≤ p → value_at c.before p ≡ none
    none_before p l =
        value_at_behind 0 c.from p c.before c.before_span (omega (arith, l, c.from_le))

    pub none_behind : (p : ℕ) → p < end → value_at c.parts.behind p ≡ none
    none_behind p l = value_at_later end p c.parts.behind c.parts.behind_later l

    -- In the range, before it, and behind it
    pub value_at_in : (p : ℕ) → start ≤ p → p < end → value_at es p ≡ value_at c.parts.hits p
    value_at_in p l m =
        all_parts p
        ∙ ap (λ o. first_of o (first_of (value_at c.parts.hits p) (value_at c.parts.behind p)))
            (none_before p l)
        ∙ ap (first_of (value_at c.parts.hits p)) (none_behind p m)
        ∙ first_of-none (value_at c.parts.hits p)

    pub value_at_left :
        (p : ℕ) → p < end → value_at es p ≡ first_of (value_at c.before p) (value_at c.parts.hits p)
    value_at_left p m =
        all_parts p
        ∙ ap (first_of (value_at c.before p)) (
            ap (first_of (value_at c.parts.hits p)) (none_behind p m)
            ∙ first_of-none (value_at c.parts.hits p))

    pub value_at_right :
        (p : ℕ)
        → start ≤ p
        → value_at es p ≡ first_of (value_at c.parts.hits p) (value_at c.parts.behind p)
    value_at_right p l =
        all_parts p
        ∙ ap (λ o. first_of o (first_of (value_at c.parts.hits p) (value_at c.parts.behind p)))
            (none_before p l)

  -- A range that is hit has a value in the range in question.
  hit_value :
      (start end : ℕ) (e : RangeEntry V) (es : List (RangeEntry V))
      → start < end
      → e.start < e.end
      → Meets start end e
      → (p : ℕ) × (start ≤ p) × (p < end) × ((v : V) × (value_at (e ∷ es) p ≡ some v))
  hit_value start end e es l f m =
      let in_it : inside e (max start e.start) ≡ true = ground (arith, f, m.1) in
      (max start e.start, ground arith, ground (arith, l, m.0), (e.value, rw in_it refl))

  -- For ranges in order that do not overlap, in an unchanged store: there is data in a range that is not
  -- empty, and whose end is a key, exactly if some position of it has a value.
  pub has_data_in_range_iff :
      (key_length start end high : ℕ) (es : List (RangeEntry V))
      → start < end
      → is_key key_length end ≡ true
      → IsSpan 0 es high
      → (has_data_in_range key_length start end es ≡ some true)
        ↔ ((p : ℕ) × (start ≤ p) × (p < end) × ((v : V) × (value_at es p ≡ some v)))
  unfolding has_data_in_range
  has_data_in_range_iff key_length start end high es l k h =
      let c = cut start end 0 high es l h (omega arith) in
      at c c.parts.hits refl c.parts.hits_span c.parts.meets
        (get-hits key_length start end high es l k c)
    where
      at :
          (c : Cut start end 0 high es) (hs : List (RangeEntry V))
          → c.parts.hits ≡ hs
          → IsSpan c.from hs c.parts.mid
          → All (Meets start end) hs
          → get key_length start end es ≡ some c.parts.hits
          → (has_data_in_range key_length start end es ≡ some true)
            ↔ ((p : ℕ) × (start ≤ p) × (p < end) × ((v : V) × (value_at es p ≡ some v)))
      at c [] e s m g = (
        λ x. absurd (ground (arith, x, g, e)),
        λ (p, a, b, (v, x)).
            let none_there = value_at_in start end high es c p a b ∙ ap (λ xs. value_at xs p) e in
            absurd (ground (arith, x, none_there)),
      )
      at c (y ∷ ys) e s m g = (
        λ x.
            let (p, a, b, (v, q)) = hit_value start end y ys l s.1 m.0 in
            (p, a, b, (v, value_at_in start end high es c p a b ∙ ap (λ xs. value_at xs p) e ∙ q)),
        λ x. ground (arith, g, e),
      )
