-- ===== src/Tests/Requests.antt =====
-- The commands of fq/_commands.py at concrete arguments.
use fq_client_py.Prelude.{◌+◌, ◌≡◌, refl, List, [], ◌∷◌, none, Str, text, pos, negsuc, false, arith}
use fq_client_py.Errors.{ok, raise, value_out_of_range_error}
use fq_client_py.Python.Split.{join}
use fq_client_py.Python.Utf8.{encode}
use fq_client_py.Python.Decimal.{str_int}
use fq_client_py.Types.{CappingKey, LimitKey, max_value}
use fq_client_py.Commands.{
  Part, str, int, word, str_parts, join_parts, mutating_command, check_values, incr, incrby,
  mdelete, rlimit_fixed_window, rlimit_sliding_window, rlimit_token_bucket, quota_set, quota_set_n,
  quota_acquire, quota_acquire_lease,
}
use fq_client_py.Commands.Words.{join_parts_injective, mdelete-space}
use fq_client_py.Commands.Values.{Checked, values-Checked}

abbrev user : CappingKey
user = record { key = text "user_42"; capping = pos 60 }

abbrev limiter : LimitKey
limiter = record { key = text "ip"; window = pos 60 }

incr_payload : incr user ≡ ok (record { payload = text "INCR user_42 60"; read_only = false })
unfolding incr mutating_command join_parts str_parts str_int join encode
incr_payload = refl

overflow_refused : incrby user (pos (max_value + 1)) ≡ raise value_out_of_range_error
unfolding incrby check_values
overflow_refused = refl

abbrev get_parts : List Part
get_parts = word "GET" ∷ str (text "user_42") ∷ int (pos 60) ∷ []

abbrev get_words : List Str
get_words = text "user_42" ∷ text "60" ∷ []

get_parts_words : str_parts get_parts ≡ ok (text "GET" ∷ get_words)
unfolding str_parts str_int
get_parts_words = refl

get_parts_payload : join_parts get_parts ≡ ok (text "GET user_42 60")
unfolding join_parts str_parts str_int join encode
get_parts_payload = refl

join_parts_injective_example : ◌≡◌ {A = List Str} (text "GET" ∷ get_words) (text "GET" ∷ get_words)
join_parts_injective_example =
    join_parts_injective (text "GET") (text "GET") get_words get_words get_parts get_parts
      get_parts_words get_parts_words (omega arith) (omega arith) get_parts_payload
      get_parts_payload

printed_60 : str_int (pos 60) ≡ ok (text "60")
unfolding str_int
printed_60 = refl

mdelete-space_example :
    mdelete (record { key = text "a 60 b"; capping = pos 60 } ∷ [])
    ≡ mdelete (
        record { key = text "a"; capping = pos 60 }
        ∷ record { key = text "b"; capping = pos 60 }
        ∷ [])
mdelete-space_example =
    mdelete-space (text "a") (text "b") (text "60") (pos 60) (pos 60) [] printed_60

values-Checked_example :
    Checked (negsuc 0 ∷ []) (incrby user (negsuc 0))
    × Checked (negsuc 0 ∷ []) (rlimit_fixed_window limiter (negsuc 0))
    × Checked (negsuc 0 ∷ []) (rlimit_sliding_window limiter (negsuc 0))
    × Checked (negsuc 0 ∷ pos 5 ∷ []) (rlimit_token_bucket limiter (negsuc 0) (pos 5))
    × Checked (negsuc 0 ∷ []) (quota_set (text "jobs") (negsuc 0))
    × Checked (negsuc 0 ∷ []) (quota_set_n (text "jobs") (negsuc 0) (pos 2))
    × Checked (pos 5 ∷ []) (quota_acquire (text "jobs") (pos 5) (text "w") none)
    × Checked
        (negsuc 0 ∷ pos 5 ∷ [])
        (quota_acquire_lease (text "jobs") (negsuc 0) (pos 5) (text "w") none)
values-Checked_example =
    values-Checked user limiter (text "jobs") (text "w") none (negsuc 0) (pos 5) (pos 2)
