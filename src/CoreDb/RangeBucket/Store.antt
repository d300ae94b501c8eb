-- ===== src/CoreDb/RangeBucket/Store.antt =====
-- The batches of packages/core-db/src/app/range-bucket.ts on a store whose parts lie before, among and
-- behind the keys that they touch.
use pigi.Prelude.{ℕ, ◌≤◌, ◌<◌, ◌≡◌, refl, ap, ◌∙◌, List, [], ◌∷◌, ◌++◌, arith, All}
use pigi.CoreDb.RangeBucket.{RangeEntry, Batch, put_entry, delete_key, batch, deletions}
use pigi.CoreDb.RangeBucket.Chains.{IsSpan, IsSpan-low-le-high, IsSpan-append}

module _ {V : Type 0} where
  abbrev pub EndsBelow : ℕ → List (RangeEntry V) → Type 0
  EndsBelow k = All (λ e. e.end < k)

  abbrev pub EndsAbove : ℕ → List (RangeEntry V) → Type 0
  EndsAbove k = All (λ e. k < e.end)

  pub span-EndsAbove :
      (low high k : ℕ) (es : List (RangeEntry V)) → IsSpan low es high → k ≤ low → EndsAbove k es
  span-EndsAbove low high k [] h l = tt
  span-EndsAbove low high k (e ∷ es) h l =
      (omega (arith, h.0, h.1), span-EndsAbove e.end high k es h.2 (omega (arith, h.0, h.1)))

  delete_key-above : (k : ℕ) (es : List (RangeEntry V)) → EndsAbove k es → delete_key k es ≡ es
  unfolding delete_key
  delete_key-above k [] h = refl
  delete_key-above k (e ∷ es) h = ground (arith, h.0, delete_key-above k es h.1)

  delete_key-among :
      (e : RangeEntry V) (xs ys : List (RangeEntry V))
      → EndsBelow e.end xs
      → EndsAbove e.end ys
      → delete_key e.end (xs ++ e ∷ ys) ≡ xs ++ ys
  unfolding delete_key
  delete_key-among e [] ys h k = ground (arith, delete_key-above e.end ys k)
  delete_key-among e (x ∷ xs) ys h k = ground (arith, h.0, delete_key-among e xs ys h.1 k)

  pub put_entry-among :
      (e : RangeEntry V) (xs ys : List (RangeEntry V))
      → EndsBelow e.end xs
      → EndsAbove e.end ys
      → put_entry e (xs ++ ys) ≡ xs ++ e ∷ ys
  unfolding put_entry
  put_entry-among e [] [] h k = refl
  put_entry-among e [] (y ∷ ys) h k = ground (arith, k.0)
  put_entry-among e (x ∷ xs) ys h k = ground (arith, h.0, put_entry-among e xs ys h.1 k)

  abbrev pub EndsBy : ℕ → List (RangeEntry V) → Type 0
  EndsBy k = All (λ e. e.end ≤ k)

  pub span-EndsBy : (low high : ℕ) (es : List (RangeEntry V)) → IsSpan low es high → EndsBy high es
  span-EndsBy low high [] h = tt
  span-EndsBy low high (e ∷ es) h =
      (IsSpan-low-le-high e.end high es h.2, span-EndsBy e.end high es h.2)

  pub EndsBy-EndsBelow : (k l : ℕ) (es : List (RangeEntry V)) → EndsBy k es → k < l → EndsBelow l es
  EndsBy-EndsBelow k l [] h m = tt
  EndsBy-EndsBelow k l (e ∷ es) h m = (omega (arith, h.0, m), EndsBy-EndsBelow k l es h.1 m)

  pub EndsBy-from : (k l : ℕ) (es : List (RangeEntry V)) → EndsBy k es → k ≤ l → EndsBy l es
  EndsBy-from k l [] h m = tt
  EndsBy-from k l (e ∷ es) h m = (omega (arith, h.0, m), EndsBy-from k l es h.1 m)

  -- The keys of a part of the store are deleted one by one.
  pub batch-deletions :
      (ops : List (Batch V)) (low mid high : ℕ) (xs hits ys : List (RangeEntry V))
      → EndsBy low xs
      → IsSpan low hits mid
      → IsSpan mid ys high
      → batch (deletions hits ++ ops) (xs ++ (hits ++ ys)) ≡ batch ops (xs ++ ys)
  unfolding batch deletions
  batch-deletions ops low mid high xs [] ys b h k = refl
  batch-deletions ops low mid high xs (e ∷ hits) ys b h k =
      ap (batch (deletions hits ++ ops)) (
        delete_key-among e xs (hits ++ ys)
          (EndsBy-EndsBelow low e.end xs b (omega (arith, h.0, h.1)))
          (span-EndsAbove e.end high e.end (hits ++ ys) (IsSpan-append e.end mid high hits ys h.2 k)
            (omega arith)))
      ∙ batch-deletions ops e.end mid high xs hits ys
          (EndsBy-from low e.end xs b (omega (arith, h.0, h.1))) h.2 k
