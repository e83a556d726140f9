-- ===== src/Backup/Payload/Adds.antt =====
-- What the loops over entries in src/ios_rehydrate/backup.py add to the totals, and that this composes.
use ios_rehydrate.Prelude.{
  ℕ, suc, ◌+◌, ◌≤◌, ◌≡◌, refl, List, [], ◌∷◌, ◌++◌, length, ltb, arith, length-append, ltb-false,
}
use ios_rehydrate.Errors.{Ensures, Ensures-done, Ensures-raise_if}
use ios_rehydrate.Backup.{consume}
use ios_rehydrate.Backup.Payload.{max_hashed_payload_count, Totals}

abbrev pub sum : List ℕ → ℕ
sum [] = 0
sum (n ∷ ns) = n + sum ns

sum-append : (ms ns : List ℕ) → sum (ms ++ ns) ≡ sum ms + sum ns
sum-append [] ns = omega arith
sum-append (m ∷ ms) ns = omega (arith, sum-append ms ns)

-- What a loop over entries adds: files of the given sizes, after so many inspected entries.
pub record Adds (limit : ℕ) (s : Totals) (sizes : List ℕ) (entries : ℕ) (t : Totals) : Type 0 where
  pub count : t.count ≡ s.count + length sizes
  pub total : t.total ≡ s.total + sum sizes
  pub inspected : t.inspected ≡ s.inspected + entries
  pub capped : s.count ≤ max_hashed_payload_count → t.count ≤ max_hashed_payload_count
  pub budget : s.inspected ≤ limit → t.inspected ≤ limit

module _ (limit : ℕ) where
  pub Adds-then :
      {s t u : Totals} {ms ns : List ℕ} {m n : ℕ}
      → Adds limit s ms m t
      → Adds limit t ns n u
      → Adds limit s (ms ++ ns) (m + n) u
  Adds-then {ms} {ns} first second = record {
    count = omega (arith, first.count, second.count, length-append ms ns);
    total = omega (arith, first.total, second.total, sum-append ms ns);
    inspected = omega (arith, first.inspected, second.inspected);
    capped = λ h. second.capped (first.capped h);
    budget = λ h. second.budget (first.budget h);
  }

  pub consume_lem : (n : ℕ) → Ensures (λ m. (m ≡ suc n) × (m ≤ limit)) (consume limit n)
  unfolding consume
  consume_lem n =
      Ensures-raise_if (ltb limit (suc n)) _ _
        λ h. Ensures-done (suc n) (refl, ltb-false limit (suc n) h)

  pub nothing_added : (s : Totals) → Adds limit s [] 0 s
  nothing_added s = record {
    count = omega arith;
    total = omega arith;
    inspected = omega arith;
    capped = λ c. c;
    budget = λ b. b;
  }

  -- One more entry has been looked at.
  pub counted :
      (s : Totals) (m : ℕ)
      → (m ≡ suc s.inspected) × (m ≤ limit)
      → Adds limit s [] 1 (record s { inspected = m })
  counted s m (h, le) = record {
    count = omega arith;
    total = omega arith;
    inspected = omega (arith, h);
    capped = λ c. c;
    budget = λ b. le;
  }
