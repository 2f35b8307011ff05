-- ===== src/Monitor/Window.antt =====
-- The block numbers that TxStatusMonitoringService.process of
-- apps/worker/src/monitor/tx.status.monitor.service.ts asks for.
use content_publishing_servi.Common.{
  ℕ, zero, suc, ◌+◌, ◌-◌, ◌≤◌, List, [], ◌∷◌, true, false, ltb, leb, ◌&&◌, if◌then◌else◌,
  Bool-cases, inl, inr, ◌⊎◌, ◌≡◌, refl, arith, ap, ◌∙◌,
}
use Prim.Native.Nat.{◌<◌}
use content_publishing_servi.Monitor.{push_blocks, block_list, number_blocks_to_crawl}

-- The numbers from `i` on
abbrev pub range : ℕ → ℕ → List ℕ
range i zero = []
range i (suc k) = i ∷ range (suc i) k

abbrev pub smaller : ℕ → ℕ → ℕ
smaller a b = if leb a b then a else b

smaller-suc : (a b a' b' : ℕ) → a ≡ suc a' → b ≡ suc b' → smaller a b ≡ suc (smaller a' b')
smaller-suc a b a' b' ea eb = ground (arith, ea, eb)

smaller-zero : (a b : ℕ) → (a ≡ 0) ⊎ (b ≡ 0) → smaller a b ≡ 0
smaller-zero a b (inl e) = ground (arith, e)
smaller-zero a b (inr e) = ground (arith, e)

within : (i current limit : ℕ) → leb i current && ltb i limit ≡ true → (i ≤ current) × (i < limit)
within i current limit e = (ground (arith, e), ground (arith, e))

beyond : (i current limit : ℕ) → leb i current && ltb i limit ≡ false → (current < i) ⊎ (limit ≤ i)
beyond i current limit e = ground (arith, e)

push_blocks-range :
    (fuel i current limit : ℕ)
    → limit ≤ i + fuel
    → push_blocks fuel i current limit ≡ range i (smaller (current + 1 - i) (limit - i))
unfolding push_blocks
push_blocks-range zero i current limit h =
    rw (smaller-zero (current + 1 - i) (limit - i) (inr (omega arith))) refl
push_blocks-range (suc fuel) i current limit h = elim (Bool-cases (leb i current && ltb i limit)) [
  | inl e ↦
      let (below, inside) = within i current limit e in
      rw
        (
          e,
          smaller-suc (current + 1 - i) (limit - i) (current + 1 - suc i) (limit - suc i)
              (omega arith) (omega arith),
          push_blocks-range fuel (i + 1) current limit (omega arith),
        )
        (ap (λ j. i ∷ range j (smaller (current + 1 - j) (limit - j))) (omega arith))
  | inr e ↦
      rw
        (
          e,
          smaller-zero (current + 1 - i) (limit - i) (elim (beyond i current limit e) [
            | inl a ↦ inl (omega arith)
            | inr a ↦ inr (omega arith)
          ]),
        )
        refl
]

-- For any fuel of 32 rounds or more the loop gives the numbers from the previous block on, in their
-- order: as many as there are up to the current block, and at most 32.
pub block_list-range :
    (fuel previous current : ℕ)
    → number_blocks_to_crawl ≤ fuel
    → (push_blocks fuel previous current (previous + number_blocks_to_crawl)
        ≡ range previous (smaller (current + 1 - previous) number_blocks_to_crawl))
      × (block_list previous current
          ≡ range previous (smaller (current + 1 - previous) number_blocks_to_crawl))
unfolding block_list
block_list-range fuel previous current h = (
  push_blocks-range fuel previous current (previous + 32) (omega (arith, h))
      ∙ ap (λ k. range previous (smaller (current + 1 - previous) k)) (omega arith),
  push_blocks-range 33 previous current (previous + 32) (omega arith)
      ∙ ap (λ k. range previous (smaller (current + 1 - previous) k)) (omega arith),
)
