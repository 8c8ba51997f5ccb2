-- ===== src/Server/Collector/Newer.antt =====
-- `recordNewer` is a strict order whose ties are an equivalence, so that "newest" makes sense.
use kafka_manager.Base.{◌≡◌, sym, true, false, arith}
use kafka_manager.Base.Int.{ℤ, ◌-ℤ◌, is_positive, is_zero, is_negative, or_number}
use kafka_manager.Base.Sort.{IsConsistent}
use kafka_manager.Base.Comparator.{descending-IsConsistent, or_number-IsConsistent}
use kafka_manager.Server.{Record}
use kafka_manager.Server.Collector.{record_newer, by_order}

abbrev compare : Record → Record → ℤ
compare a b =
    or_number (b.timestamp -ℤ a.timestamp)
      (or_number (b.partition -ℤ a.partition) (b.offset -ℤ a.offset))

compare-IsConsistent : IsConsistent compare
compare-IsConsistent =
    or_number-IsConsistent (λ a b. b.timestamp -ℤ a.timestamp)
      (λ a b. or_number (b.partition -ℤ a.partition) (b.offset -ℤ a.offset))
      (descending-IsConsistent (λ r. r.timestamp))
      (or_number-IsConsistent (λ a b. b.partition -ℤ a.partition) (λ a b. b.offset -ℤ a.offset)
        (descending-IsConsistent (λ r. r.partition)) (descending-IsConsistent (λ r. r.offset)))

sub_flip :
    (a b : ℤ)
    → (is_positive (a -ℤ b) ≡ is_negative (b -ℤ a)) × (is_zero (a -ℤ b) ≡ is_zero (b -ℤ a))
unfolding ◌-ℤ◌
sub_flip a b = (ground arith, ground arith)

record_newer-compare : (a b : Record) → record_newer a b ≡ is_negative (compare a b)
unfolding record_newer
record_newer-compare a b = ground (
  arith,
  sub_flip a.timestamp b.timestamp,
  sub_flip a.partition b.partition,
  sub_flip a.offset b.offset,
)

compare-record_newer : (a b : Record) → is_positive (compare b a) ≡ record_newer a b
compare-record_newer a b = rw (record_newer-compare a b) (compare-IsConsistent.flip a b)

pub record_newer_asym : (a b : Record) → record_newer a b ≡ true → record_newer b a ≡ false
record_newer_asym a b h = ground (arith, record_newer-compare a b, compare-record_newer b a)

-- What is not older than something that is not older than `a` is not older than `a`.
pub record_newer_trans :
    (a b c : Record)
    → record_newer b a ≡ false
    → record_newer c b ≡ false
    → record_newer c a ≡ false
record_newer_trans a b c h k = rw (sym (compare-record_newer c a)) (
    compare-IsConsistent.trans a b c (rw (compare-record_newer b a) h)
      (rw (compare-record_newer c b) k))

pub by_newer-IsConsistent : IsConsistent (by_order record_newer)
by_newer-IsConsistent = record {
  flip = λ a b. ground (arith, record_newer_asym a b, record_newer_asym b a);
  trans = λ a b c h k. ground (
    arith,
    record_newer_trans a b c,
    record_newer_asym a b,
    record_newer_asym b c,
    record_newer_asym a c,
    record_newer_asym b a,
    record_newer_asym c b,
    record_newer_asym c a,
  );
}

pub by_newer-after :
    (a b : Record) → is_positive (by_order record_newer a b) ≡ false → record_newer b a ≡ false
by_newer-after a b h = ground (arith, record_newer_asym a b)
