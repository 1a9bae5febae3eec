-- ===== src/Tests/Keys.antt =====
-- Runs of internal/keys/keys.go.
use headless_terminal.Base.{◌≡◌, ◌≢◌, refl, true, false, [], ◌∷◌, ◌++◌, codes, ok, err, bytes_eq}
use headless_terminal.Utf8.{to_lower, runes, encode_rune, decode_rune}
use headless_terminal.Keys.Named.{lookup}
use headless_terminal.Keys.{
  resolve_base, apply_ctrl, out_of_fuel, at_position, unknown_modifier, parse, parse_loop, round,
  index_byte, parse_spec, parse_special, split_modifiers, apply_modifiers, parse_all,
}
use headless_terminal.Keys.Loop.{behind}
use headless_terminal.Keys.Parsing.{parse-ne-out_of_fuel, parse-append, parse-quote}
use headless_terminal.Keys.Special.{parse_special-spell}

parse_ctrl_c : parse (codes "<C-c>q") ≡ ok (3 ∷ codes "q")
unfolding parse parse_loop round index_byte parse_spec parse_special split_modifiers apply_modifiers
    resolve_base lookup to_lower runes encode_rune decode_rune bytes_eq apply_ctrl
parse_ctrl_c = refl

parse_meta_up : parse (codes "<M-Up>") ≡ ok (0x1b ∷ 0x1b ∷ codes "[A")
unfolding parse parse_loop round index_byte parse_spec parse_special split_modifiers apply_modifiers
    resolve_base lookup to_lower runes encode_rune decode_rune bytes_eq apply_ctrl
parse_meta_up = refl

parse_ab : parse (codes "ab") ≡ ok (codes "ab")
unfolding parse parse_loop round
parse_ab = refl

parse-ne-out_of_fuel_example : parse (codes "<C-c>q") ≢ err out_of_fuel
parse-ne-out_of_fuel_example = parse-ne-out_of_fuel (codes "<C-c>q")

parse-append_example : parse (codes "ab<Up>") ≡ behind 2 (codes "ab") (parse (codes "<Up>"))
parse-append_example = parse-append (codes "ab") (codes "<Up>") parse_ab

parse_all_run : parse_all (codes "ab" ∷ codes "<CR>" ∷ []) ≡ ok (codes "ab" ++ 13 ∷ [])
unfolding parse_all parse parse_loop round index_byte parse_spec parse_special split_modifiers
    apply_modifiers resolve_base lookup to_lower runes encode_rune decode_rune bytes_eq apply_ctrl
parse_all_run = refl

parse-quote_example : parse (codes "a<lt>b") ≡ ok (codes "a<b")
parse-quote_example = parse-quote (codes "a<b")

parse_bad : parse (codes "ab<X-q>") ≡ err (at_position 2 (unknown_modifier b'X'))
unfolding parse parse_loop round index_byte parse_spec parse_special split_modifiers apply_modifiers
    resolve_base lookup to_lower runes encode_rune decode_rune bytes_eq apply_ctrl
parse_bad = refl

parse_special-spell_example :
    parse_special (codes "A-c-m-Up")
    ≡ apply_modifiers (record { ctrl = true; meta = true; shift = false }) (codes "Up")
parse_special-spell_example =
    parse_special-spell (codes "Acm") (codes "Up") (refl, (refl, (refl, tt))) refl
