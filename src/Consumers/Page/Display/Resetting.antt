-- ===== src/Consumers/Page/Display/Resetting.antt =====
-- When the drawer offers to reset the offsets of a group.
use kafka_manager.Base.{
  ◌≡◌, ◌↔◌, inl, inr, Bool, true, false, Bool-cases, Option, none, some, List, [], ◌∷◌, ◌++◌, arith,
  Text, codes, text_eq, text_eq_iff,
}
use kafka_manager.Base.Int.{ℤ}
use kafka_manager.Confirm.{enabled, confirmation_matches}
use kafka_manager.Markup.{
  Item, Offered, Offered-append, Offered-error_items, AllowsAll-flat_map, allowed, error_items,
}
use kafka_manager.Markup.Dialog.{dialog, confirm_dialog, confirm_buttons}
use kafka_manager.Consumers.{PartitionLag, ConsumerGroup, filter_partitions}
use kafka_manager.Consumers.Page.{ResetRequest, DrawerState, is_open}
use kafka_manager.Consumers.Page.Display.{
  Action, ask_reset, danger_zone, cancel_reset, confirm_reset, partition_items, partitions_items,
  reset_items, reset_dialog, drawer_items,
}

module _ (to_locale : ℤ → Text) (progress : PartitionLag → Text) (locale_compare : Text → Text → ℤ)
    (to_lower_case : Text → Text) where
  partitions-silent :
      (ps : List PartitionLag) (a : Action)
      → ¬ Offered a (partitions_items to_locale progress locale_compare to_lower_case ps)
  unfolding partition_items
  partitions-silent [] a o = elim o [ inl h ↦ h | inr h ↦ h ]
  partitions-silent (p ∷ ps) a o =
      allowed (λ b. ⊥) (partitions_items to_locale progress locale_compare to_lower_case (p ∷ ps))
        (AllowsAll-flat_map (λ b. ⊥)
          (partition_items to_locale progress locale_compare to_lower_case)
          (λ q. (tt, (tt, (tt, (tt, (tt, tt)))))) (p ∷ ps))
        o

  reset_items-offers_iff :
      (read_only : Bool) (offset : Text) (d : DrawerState)
      → (Offered ask_reset
            (reset_items to_locale progress locale_compare to_lower_case read_only offset d)
          ↔ ((d.resetting ≡ false) × (read_only ≡ false)))
        × ¬ Offered confirm_reset
            (reset_items to_locale progress locale_compare to_lower_case read_only offset d)
  unfolding reset_items
  reset_items-offers_iff true offset d = elim (Bool-cases (text_eq d.mode (codes "absolute"))) [
    | inl e ↦ rw e (
        ground
          (arith, Offered-error_items ask_reset d.error, Offered-error_items confirm_reset d.error))
    | inr e ↦ rw e (
        ground
          (arith, Offered-error_items ask_reset d.error, Offered-error_items confirm_reset d.error))
  ]
  reset_items-offers_iff false offset d = elim (Bool-cases (text_eq d.mode (codes "absolute"))) [
    | inl e ↦ rw e (
        ground
          (arith, Offered-error_items ask_reset d.error, Offered-error_items confirm_reset d.error))
    | inr e ↦ rw e (
        ground
          (arith, Offered-error_items ask_reset d.error, Offered-error_items confirm_reset d.error))
  ]

  abbrev buttons : ConsumerGroup → DrawerState → List (Item Action)
  buttons g d =
      confirm_buttons (codes "确认重置 Offset") d.resetting (enabled d.typed (some g.name) d.resetting)
        cancel_reset confirm_reset

  reset_dialog-offers_iff :
      (g : ConsumerGroup) (d : DrawerState) (o : Option ResetRequest)
      → ¬ Offered ask_reset (reset_dialog to_locale progress locale_compare to_lower_case g d o)
        × (Offered confirm_reset
              (reset_dialog to_locale progress locale_compare to_lower_case g d o)
            ↔ ((is_open o ≡ true) × (d.typed ≡ g.name) × (d.resetting ≡ false)))
  unfolding confirm_dialog dialog enabled confirmation_matches
  reset_dialog-offers_iff g d none = ground arith
  reset_dialog-offers_iff g d (some r) = ground (
    arith,
    Offered-append ask_reset (error_items d.error) (buttons g d),
    Offered-append confirm_reset (error_items d.error) (buttons g d),
    Offered-error_items ask_reset d.error,
    Offered-error_items confirm_reset d.error,
    text_eq_iff d.typed g.name,
  )

  -- The drawer offers to ask for a reset exactly if the cluster is not read-only and no reset is
  -- pending. It offers to confirm one exactly if the dialog is open, the reader typed the name of the
  -- group to the letter, and no reset is pending.
  pub drawer_items-offers_iff :
      (cluster_id : Text) (read_only : Bool) (g : ConsumerGroup) (query : Text) (lag_only : Bool)
      (offset : Text) (d : DrawerState)
      → let items =
          drawer_items to_locale progress locale_compare to_lower_case cluster_id read_only g query
            lag_only offset d in
        (Offered ask_reset items ↔ ((d.resetting ≡ false) × (read_only ≡ false)))
        × (Offered confirm_reset items
            ↔ ((is_open d.reset_request ≡ true) × (d.typed ≡ g.name) × (d.resetting ≡ false)))
  unfolding drawer_items
  drawer_items-offers_iff cluster_id read_only g query lag_only offset d =
      let ps = filter_partitions locale_compare to_lower_case g.partitions query lag_only in
      let form = reset_items to_locale progress locale_compare to_lower_case read_only offset d in
      let confirmation =
        reset_dialog to_locale progress locale_compare to_lower_case g d d.reset_request in
      let below : List (Item Action) = danger_zone ++ (form ++ confirmation) in
      let partition_list = partitions_items to_locale progress locale_compare to_lower_case ps in
      (
        ground (
          arith,
          Offered-append ask_reset partition_list below,
          partitions-silent ps ask_reset,
          Offered-append ask_reset form confirmation,
          reset_items-offers_iff read_only offset d,
          reset_dialog-offers_iff g d d.reset_request,
        ),
        ground (
          arith,
          Offered-append confirm_reset partition_list below,
          partitions-silent ps confirm_reset,
          Offered-append confirm_reset form confirmation,
          reset_items-offers_iff read_only offset d,
          reset_dialog-offers_iff g d d.reset_request,
        ),
      )
