-- ===== src/Swip/Tests.antt =====
-- Runs of `crates/swip-kernel`.
use pagebox.Base.{◌≡◌, refl, some, arith}
use pagebox.Swip.State.{SwipState, raw_is_hot, classify_raw, hot}
use pagebox.Swip.Word.{
  hot_ptr, pointer_bits, cool, warm, evict, evicted_page, page_id, resolve_ptr, cool_word,
}
use pagebox.Swip.Lifecycle.{lifecycle, tagged}

lifecycle_example :
    (hot_ptr 4096 ≡ some 4096)
    × (classify_raw 4096 ≡ hot)
    × (pointer_bits 4096 ≡ some 4096)
    × (cool 4096 ≡ some (tagged 1 4096))
    × (classify_raw (tagged 1 4096) ≡ SwipState.cool)
    × (pointer_bits (tagged 1 4096) ≡ some 4096)
    × (warm (tagged 1 4096) ≡ some 4096)
    × (evict (tagged 1 4096) 17 ≡ some (tagged 2 17))
    × (evicted_page 17 ≡ some (tagged 2 17))
    × (classify_raw (tagged 2 17) ≡ SwipState.evicted)
    × (page_id (tagged 2 17) ≡ some 17)
    × (resolve_ptr (tagged 2 17) 8192 ≡ some 8192)
lifecycle_example = lifecycle 4096 17 8192 (omega arith) (omega arith) (omega arith)

cool_4096 : cool 4096 ≡ some (tagged 1 4096)
unfolding cool cool_word raw_is_hot
cool_4096 = refl
