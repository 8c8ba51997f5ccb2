-- ===== src/Consumers/Page/Labels.antt =====
-- The tones, labels and bars of web/src/pages/ConsumersPage.tsx. The patterns of `groupTone` ignore
-- the case of the letters A to Z; of the other characters none is equal to one of these.
use kafka_manager.Base.{
  ℕ, ◌+◌, ◌≡◌, ◌↔◌, Bool, true, false, ◌&&◌, ◌||◌, map, arith, leb, if◌then◌else◌, Text, codes,
}
use kafka_manager.Base.Int.{ℤ, pos, negsuc, is_positive, is_zero}
use kafka_manager.Base.Search.{includes}
use kafka_manager.Consumers.{ConsumerGroup}

pub data GroupTone : Type 0 where
  good warn bad neutral : GroupTone

abbrev lower : ℕ → ℕ
lower c = if leb 65 c && leb c 90 then c + 32 else c

abbrev pub mentions : Text → Text → Bool
mentions state word = includes (map lower state) word

pub group_tone : ConsumerGroup → GroupTone
group_tone g =
    if mentions g.state (codes "dead") || mentions g.state (codes "unknown")
    then bad
    else if is_positive g.total_lag
        || (mentions g.state (codes "preparing") || mentions g.state (codes "completing"))
    then warn
    else if mentions g.state (codes "stable")
    then good
    else neutral

-- `lag >= n`
abbrev at_least : ℕ → ℤ → Bool
at_least n (pos k) = leb n k
at_least n (negsuc k) = false

pub lag_label : ℤ → Text
lag_label lag =
    if is_zero lag
    then codes "无积压"
    else if at_least 10000 lag
    then codes "严重"
    else if at_least 1000 lag
    then codes "较高"
    else codes "待关注"

-- A group is shown as good exactly if its state mentions "stable" and none of the words for trouble,
-- and its total lag is not positive.
pub group_tone-good_iff :
    (g : ConsumerGroup)
    → (group_tone g ≡ good) ↔ (
        (mentions g.state (codes "stable") ≡ true)
        × (is_positive g.total_lag ≡ false)
        × (mentions g.state (codes "dead") ≡ false)
        × (mentions g.state (codes "unknown") ≡ false)
        × (mentions g.state (codes "preparing") ≡ false)
        × (mentions g.state (codes "completing") ≡ false))
unfolding group_tone
group_tone-good_iff g = ground arith
