-- ===== src/Publisher/Limits.antt =====
-- When PublishingService.checkCapacity of apps/worker/src/publisher/publishing.service.ts finds the
-- capacity exhausted.
use content_publishing_servi.Common.{ℕ, ◌+◌, ◌*◌, ◌/◌, ◌||◌, leb, ltb, ◌≡◌, ap, arith}
use content_publishing_servi.Blockchain.Capacity.{CapacityInfo}
use content_publishing_servi.Publisher.{percentage, out_of_capacity, limit_of}

leb-percent : (total used : ℕ) → leb (total / 100) used ≡ ltb total ((used + 1) * 100)
leb-percent total used = ground arith

-- Under a percentage the capacity is exhausted exactly if none is left, or if one more unit would be
-- more than the percentage of the capacity issued.
pub out_of_capacity-percentage :
    (capacity : CapacityInfo) (used value : ℕ)
    → out_of_capacity capacity used (percentage value) ≡ (
        leb capacity.remaining_capacity 0
        || ltb (capacity.total_capacity_issued * value) ((used + 1) * 100))
unfolding out_of_capacity limit_of
out_of_capacity-percentage capacity used value =
    ap (λ b. leb capacity.remaining_capacity 0 || b)
      (leb-percent (capacity.total_capacity_issued * value) used)
