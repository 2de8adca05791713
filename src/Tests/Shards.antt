-- ===== src/Tests/Shards.antt =====
-- Routing, grouping and cursors of fq/_sharding.py at concrete keys.
use fq_client_py.Prelude.{
  ℕ, ◌-◌, ◌≡◌, refl, ◌||◌, ◌&&◌, List, [], ◌∷◌, none, some, Str, text, pos, leb, ◌==◌, str_eq,
  if◌then◌else◌, arith,
}
use fq_client_py.Errors.{Result, ok, raise, value_error}
use fq_client_py.Python.Decimal.{CharacterData, is_digit, str_isdigit, int_str}
use fq_client_py.Python.Decimal.Read.{KnowsAscii}
use fq_client_py.Python.Utf8.{encode}
use fq_client_py.Python.Split.{partition}
use fq_client_py.Types.{CappingKey}
use fq_client_py.Responses.Numbers.{max_value-Fits}
use fq_client_py.Sharding.{
  Grouped, fnv1a_shard, resolve_shard, group_by_shard, parse_shard_cursor, make_shard_cursor,
  shard_cursor_separator,
}
use fq_client_py.Sharding.Cursor.{parse_shard_cursor-make_shard_cursor, parse_shard_cursor_no_value}
use fq_client_py.Sharding.Groups.{IsGrouping, group_by_shard-IsGrouping}

-- The digits of ASCII, and one digit without a decimal value: `²`, U+00B2.
abbrev superscript : ℕ
superscript = 0xb2

abbrev pub characters : CharacterData
characters = record {
  digit = λ c. (leb b'0' c && leb c b'9') || c == superscript;
  decimal_value = λ c. if leb b'0' c && leb c b'9' then some (c - b'0') else none;
}

pub characters-KnowsAscii : KnowsAscii characters
unfolding is_digit
characters-KnowsAscii = record { digit = λ c h. ground arith; decimal = λ c h. ground arith }

routed : resolve_shard (text "user_42") 4 fnv1a_shard ≡ ok 1
unfolding resolve_shard fnv1a_shard encode
routed = refl

parse_shard_cursor-make_shard_cursor_example :
    parse_shard_cursor characters (make_shard_cursor 2 (text "abc") 3) 3 ≡ ok (2, text "abc")
parse_shard_cursor-make_shard_cursor_example =
    parse_shard_cursor-make_shard_cursor characters characters-KnowsAscii 2 3 (text "abc")
      (omega arith) (max_value-Fits 2 (omega arith)) (λ e. cc)

composite : parse_shard_cursor characters (text "2:abc") 3 ≡ ok (2, text "abc")
unfolding parse_shard_cursor partition str_eq str_isdigit int_str
composite = refl

parse_shard_cursor_no_value_example :
    parse_shard_cursor characters (superscript ∷ shard_cursor_separator ∷ text "abc") 3
    ≡ raise value_error
parse_shard_cursor_no_value_example =
    parse_shard_cursor_no_value characters superscript b'a' (text "bc") 3 refl refl (omega arith)

abbrev three_keys : List CappingKey
three_keys =
    record { key = text "a"; capping = pos 60 }
    ∷ record { key = text "b"; capping = pos 60 }
    ∷ record { key = text "c"; capping = pos 60 }
    ∷ []

abbrev b_apart : Str → Result ℕ
b_apart key = if str_eq key (text "b") then ok 0 else ok 1

abbrev grouped : Grouped
grouped =
    (
      1,
      (0, record { key = text "a"; capping = pos 60 })
          ∷ (2, record { key = text "c"; capping = pos 60 })
          ∷ [],
    )
    ∷ (0, (1, record { key = text "b"; capping = pos 60 }) ∷ [])
    ∷ []

three_grouped : group_by_shard three_keys b_apart ≡ ok grouped
unfolding group_by_shard str_eq
three_grouped = refl

group_by_shard-IsGrouping_example : IsGrouping three_keys b_apart grouped
group_by_shard-IsGrouping_example = group_by_shard-IsGrouping three_keys b_apart three_grouped
