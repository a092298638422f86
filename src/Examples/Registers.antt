-- ===== src/Examples/Registers.antt =====
-- Base address registers.
use warp_pipe.Base.{
  ℕ, ◌+◌, ◌^◌, ◌<◌, ◌≤◌, ◌≡◌, ◌≢◌, ◌↔◌, inl, refl, arith, true, false, none, some, u32, update,
  if◌then◌else◌,
}
use warp_pipe.Client.State.{Client}
use warp_pipe.Client.Bars.{in_bar, get_bar_idx, warppipe_register_bar}
use warp_pipe.Client.Bars.Lookup.{in_bar_iff, get_bar_idx_iff, unused_hides}
use warp_pipe.Client.Bars.Register.{IsSized, registered, register_bar_lem, register_bar-IsSized}
use warp_pipe.Examples.Pipe.{zeroed}

-- A client with BAR 1 of 4 KiB at 0x4000, and no other.
abbrev one_bar : Client
one_bar = record zeroed { bar = update (λ _. 0) 1 0x4000; bar_size = update (λ _. 0) 1 0x1000 }

one_bar_made : (warppipe_register_bar zeroed 0x4000 0x1000 1 none none).0.bar_size 1 ≡ 0x1000
unfolding warppipe_register_bar
one_bar_made = refl

size_refused : warppipe_register_bar zeroed 0x4000 0x1800 1 none none ≡ (zeroed, false)
unfolding warppipe_register_bar
size_refused = refl

in_bar_iff_example :
    (in_bar one_bar 0x4abc 1 ≡ true) ↔ ((0x4000 ≤ u32 0x4abc) × (u32 0x4abc < 0x4000 + 2 ^ 12))
in_bar_iff_example =
    in_bar_iff one_bar 0x4abc 1 12
      (record { small = omega arith; sized = refl; aligned = refl; fits = omega arith })

get_bar_idx_iff_example : (get_bar_idx one_bar 0x4abc ≡ some 0) ↔ (
    (0 < 6)
    × (in_bar one_bar 0x4abc 0 ≡ true)
    × ((h : ℕ) → h < 0 → in_bar one_bar 0x4abc h ≡ false))
get_bar_idx_iff_example = get_bar_idx_iff one_bar 0x4abc 0

unused_hides_example :
    (0 < 1 → get_bar_idx one_bar 0x4abc ≢ some 1) × (get_bar_idx one_bar 0x4abc ≢ none)
unused_hides_example =
    unused_hides one_bar 0x4abc 0 1 (omega arith) (record { no_size = refl; no_address = refl })

register_bar_lem_test :
    (((warppipe_register_bar zeroed 0x4000 0x1000 1 (some 3) none).1 ≡ true)
      ↔ ((zeroed.bar 1 ≡ 0) × ((k : ℕ) × (0x1000 ≡ 2 ^ k))))
    × ((warppipe_register_bar zeroed 0x4000 0x1000 1 (some 3) none).0 ≡ (
        if (warppipe_register_bar zeroed 0x4000 0x1000 1 (some 3) none).1
        then registered zeroed 0x4000 0x1000 1 (some 3) none
        else zeroed))
register_bar_lem_test = register_bar_lem zeroed 0x4000 0x1000 1 (some 3) none (omega arith)

register_bar-IsSized_example :
    IsSized ((warppipe_register_bar zeroed 0x4000 0x1000 1 (some 3) none).0) 1
register_bar-IsSized_example =
    register_bar-IsSized zeroed 0x4000 0x1000 1 (some 3) none (omega arith)
      (λ j. inl (refl, refl, refl, refl)) 1
