-- ===== src/Tests/Answers.antt =====
-- The loops of fq/sync/sharded.py over clients that answer one call each.
use fq_client_py.Prelude.{
  ℕ, zero, suc, ◌-◌, ◌<◌, ◌≤◌, sym, subst, ◌≡◌, refl, inl, inr, List, [], ◌∷◌, map, Option, some,
  pos, ℤ, Bool, false, Str, Bytes, text, length, str_eq, if◌then◌else◌, arith,
}
use fq_client_py.Errors.{ok}
use fq_client_py.Exec.{Exec}
use fq_client_py.Python.Decimal.{decimal, str_isdigit, int_str}
use fq_client_py.Python.Split.{partition}
use fq_client_py.Types.{CappingKey, ScanKey, ScanResult}
use fq_client_py.Sharding.{
  ShardingFunc, Grouped, resolve_shard, append_to, group_from, group_by_shard, parse_shard_cursor,
  make_shard_cursor,
}
use fq_client_py.Sync.Sharded.{index_of, mdelete_by, walk_from, walk}
use fq_client_py.Sync.Sharded.Delete.{answer}
use fq_client_py.Sync.Sharded.Delete.Answers.{mdelete_by-answers}
use fq_client_py.Sync.Sharded.Walk.{Cut, Remains}
use fq_client_py.Sync.Sharded.Walk.Pages.{composite_rest, walk-Cut}
use fq_client_py.Sync.Sharded.Walk.Loop.{Scans}
use fq_client_py.Responses.{
  parse_bools, parse_values, ok_data, split_response, parse_uints, parse_uint, parse_scan,
  scan_fields, scan_keys,
}
use fq_client_py.Tests.Network.{seconds, opened, world_of}
use fq_client_py.Tests.Retries.{settings}
use fq_client_py.Commands
use fq_client_py.Commands.{mutating_command, read_only_command, join_parts, str_parts}
use fq_client_py.Python.Decimal.{str_int}
use fq_client_py.Python.Split.{join, split}
use fq_client_py.Python.Utf8.{encode, decode}
use fq_client_py.Framing.{check_request_size, encode_frame, decode_frame_size}
use fq_client_py.Reconnect.{new_deadline, remaining, check}
use fq_client_py.Sync.Connection.{send}
use fq_client_py.Sync.Pool.{take}
use fq_client_py.Sync.Retry.{with_retry, plain_send}
use fq_client_py.Sync.Client.{default, execute}
use fq_client_py.Sync.Client.Methods
use fq_client_py.Sync.Sharded.Methods.{Shard, on_client}
use fq_client_py.World.{done, received}
use fq_client_py.Tests.Shards.{characters, characters-KnowsAscii}

-- A client with one open connection, on which a payload comes as the reply.
abbrev answering : Bytes → Shard seconds
answering reply = record {
  settings = settings;
  client = record {
    pool = record { size = 1; slots = some (opened [] []).conn ∷ []; is_closed = false };
    world = world_of (done ∷ done ∷ done ∷ received (0 ∷ 0 ∷ 0 ∷ length reply ∷ reply) ∷ []);
  };
}

abbrev capped : Str → CappingKey
capped key = record { key = key; capping = pos 60 }

-- By the length of the key.
abbrev by_length : ShardingFunc
by_length key count = ok (pos (length key - 1))

abbrev asked : List CappingKey
asked = capped (text "bb") ∷ capped (text "a") ∷ capped (text "cc") ∷ capped (text "a") ∷ []

-- The first shard has the key `a`, the second the key `bb`.
abbrev held : ℕ → CappingKey → Bool
held zero k = str_eq k.key (text "a")
held (suc i) k = str_eq k.key (text "bb")

abbrev two_clients : List (Shard seconds)
two_clients = answering (text "ok|1;1") ∷ answering (text "ok|1;0") ∷ []

abbrev groups : Grouped
groups =
    (1, (0, capped (text "bb")) ∷ (2, capped (text "cc")) ∷ [])
    ∷ (0, (1, capped (text "a")) ∷ (3, capped (text "a")) ∷ [])
    ∷ []

grouped : group_by_shard asked (index_of by_length two_clients) ≡ ok groups
unfolding index_of resolve_shard group_by_shard group_from append_to
grouped = refl

abbrev deletes : List CappingKey → Exec (Shard seconds) (Option (List Bool))
deletes keys = on_client seconds (λ cfg. Methods.mdelete seconds cfg keys default)

abbrev first_asked : List CappingKey
first_asked = capped (text "a") ∷ capped (text "a") ∷ []

abbrev second_asked : List CappingKey
second_asked = capped (text "bb") ∷ capped (text "cc") ∷ []

first_answers :
    deletes first_asked (answering (text "ok|1;1"))
    ≡ (ok (some (map (held 0) first_asked)), (deletes first_asked (answering (text "ok|1;1"))).1)
unfolding Methods.mdelete execute Commands.mdelete mutating_command join_parts str_parts str_int
    encode join new_deadline remaining take with_retry plain_send send check_request_size check
    encode_frame decode_frame_size parse_bools parse_values ok_data split_response partition str_eq
    parse_uints split parse_uint
first_answers = refl

second_answers :
    deletes second_asked (answering (text "ok|1;0"))
    ≡ (ok (some (map (held 1) second_asked)), (deletes second_asked (answering (text "ok|1;0"))).1)
unfolding Methods.mdelete execute Commands.mdelete mutating_command join_parts str_parts str_int
    encode join new_deadline remaining take with_retry plain_send send check_request_size check
    encode_frame decode_frame_size parse_bools parse_values ok_data split_response partition str_eq
    parse_uints split parse_uint
second_answers = refl

-- Two clients, each with a reply to the keys of its group.
mdelete_by-answers_example :
    (shards' : List (Shard seconds)) × (mdelete_by deletes by_length asked two_clients
      ≡ (ok (some (map (answer held (index_of by_length two_clients)) asked)), shards'))
mdelete_by-answers_example = mdelete_by-answers deletes held two_clients by_length asked grouped (
  (answering (text "ok|1;0"), _, refl, second_answers),
  ((answering (text "ok|1;1"), _, refl, first_answers), tt),
)

abbrev key_at : Str → ScanKey
key_at key = record { key = key; window = 60 }

-- The first shard has the key `a` left from its cursor 5, the second has `b` and then `c`.
abbrev keys_from : ℕ → Remains
keys_from zero cursor = key_at (text "a") ∷ []
keys_from (suc i) cursor =
    if str_eq cursor (text "0")
    then key_at (text "b") ∷ key_at (text "c") ∷ []
    else key_at (text "c") ∷ []

abbrev first_scanned : Shard seconds
first_scanned = answering (text "ok|0;a;60")

abbrev second_scanned : Shard seconds
second_scanned = answering (text "ok|7;b;60")

abbrev scans : Str → ℤ → Exec (Shard seconds) (Option ScanResult)
scans cursor wanted = on_client seconds (λ cfg. Methods.scan seconds cfg wanted cursor default)

abbrev first_page : ScanResult
first_page = record { cursor = text "0"; keys = key_at (text "a") ∷ [] }

abbrev second_page : ScanResult
second_page = record { cursor = text "7"; keys = key_at (text "b") ∷ [] }

first_scans_1 :
    scans (text "5") (pos 1) first_scanned
    ≡ (ok (some first_page), (scans (text "5") (pos 1) first_scanned).1)
unfolding Methods.scan execute Commands.scan read_only_command join_parts str_parts str_int encode
    join new_deadline remaining take with_retry plain_send send check_request_size check
    encode_frame decode_frame_size parse_scan scan_fields scan_keys decode ok_data split_response
    partition str_eq split parse_uint
first_scans_1 = refl

first_scans_2 :
    scans (text "5") (pos 2) first_scanned
    ≡ (ok (some first_page), (scans (text "5") (pos 2) first_scanned).1)
unfolding Methods.scan execute Commands.scan read_only_command join_parts str_parts str_int encode
    join new_deadline remaining take with_retry plain_send send check_request_size check
    encode_frame decode_frame_size parse_scan scan_fields scan_keys decode ok_data split_response
    partition str_eq split parse_uint
first_scans_2 = refl

second_scans_1 :
    scans (text "0") (pos 1) second_scanned
    ≡ (ok (some second_page), (scans (text "0") (pos 1) second_scanned).1)
unfolding Methods.scan execute Commands.scan read_only_command join_parts str_parts str_int encode
    join new_deadline remaining take with_retry plain_send send check_request_size check
    encode_frame decode_frame_size parse_scan scan_fields scan_keys decode ok_data split_response
    partition str_eq split parse_uint
second_scans_1 = refl

second_scans_2 :
    scans (text "0") (pos 2) second_scanned
    ≡ (ok (some second_page), (scans (text "0") (pos 2) second_scanned).1)
unfolding Methods.scan execute Commands.scan read_only_command join_parts str_parts str_int encode
    join new_deadline remaining take with_retry plain_send send check_request_size check
    encode_frame decode_frame_size parse_scan scan_fields scan_keys decode ok_data split_response
    partition str_eq split parse_uint
second_scans_2 = refl

abbrev two_scanned : List (Shard seconds)
two_scanned = first_scanned ∷ second_scanned ∷ []

-- What one scan of a shard gives, by the two counts that it may be asked for.
abbrev Answered : ℕ → Shard seconds → Str → ScanResult → Type 0
Answered wanted s cursor page =
    (s' : Shard seconds) × (scans cursor (pos wanted) s ≡ (ok (some page), s'))

one_or_two :
    (s : Shard seconds) (cursor : Str) (page : ScanResult) (wanted : ℕ)
    → 0 < wanted
    → wanted ≤ 2
    → Answered 1 s cursor page
    → Answered 2 s cursor page
    → Answered wanted s cursor page
one_or_two s cursor page zero positive most one two_keys = absurd (omega (arith, positive))
one_or_two s cursor page (suc zero) positive most one two_keys = one
one_or_two s cursor page (suc (suc zero)) positive most one two_keys = two_keys
one_or_two s cursor page (suc (suc (suc n))) positive most one two_keys =
    absurd (omega (arith, most))

first_page-Cut : Cut (keys_from 0) (text "5") first_page
unfolding str_eq
first_page-Cut = inl (refl, refl)

second_page-Cut : Cut (keys_from 1) (text "0") second_page
unfolding str_eq
second_page-Cut = inr (refl, (λ h. cc h), refl)

answers_scans : Scans keys_from scans two_scanned 2 0 (text "5")
answers_scans zero s cursor wanted at (inr (later, _)) positive most = absurd (omega (arith, later))
answers_scans zero s cursor wanted at (inl (_, same)) positive most =
    let shard : first_scanned ≡ s = cc at in
    let (s', answers) =
      one_or_two first_scanned (text "5") first_page wanted positive most (_, first_scans_1)
        (_, first_scans_2) in
    subst
      (λ c.
        (page : ScanResult) × (s' : Shard seconds) × (scans c (pos wanted) s ≡ (ok (some page), s'))
        × Cut (keys_from 0) c page)
      (sym same)
      (
        first_page,
        s',
        subst (λ x. scans (text "5") (pos wanted) x ≡ (ok (some first_page), s')) shard answers,
        first_page-Cut,
      )
answers_scans (suc zero) s cursor wanted at (inl (same, _)) positive most =
    absurd (omega (arith, same))
answers_scans (suc zero) s cursor wanted at (inr (_, same)) positive most =
    let shard : second_scanned ≡ s = cc at in
    let (s', answers) =
      one_or_two second_scanned (text "0") second_page wanted positive most (_, second_scans_1)
        (_, second_scans_2) in
    subst
      (λ c.
        (page : ScanResult) × (s' : Shard seconds) × (scans c (pos wanted) s ≡ (ok (some page), s'))
        × Cut (keys_from 1) c page)
      (sym same)
      (
        second_page,
        s',
        subst (λ x. scans (text "0") (pos wanted) x ≡ (ok (some second_page), s')) shard answers,
        second_page-Cut,
      )
answers_scans (suc (suc i)) s cursor wanted at asked positive most = absurd (cc at)

first_shard : parse_shard_cursor characters (text "0:5") 2 ≡ ok (0, text "5")
unfolding parse_shard_cursor partition str_eq str_isdigit int_str
first_shard = refl

walk-Cut_example :
    (result : ScanResult) × (shards' : List (Shard seconds)) × (walk scans characters
        (text "0:5")
        (pos 2)
        two_scanned
      ≡ (ok (some result), shards'))
    × Cut (composite_rest characters keys_from 2) (text "0:5") result
walk-Cut_example =
    walk-Cut keys_from scans characters characters-KnowsAscii 2 (text "0:5") two_scanned
      (omega arith) (omega arith) (omega arith) first_shard answers_scans

-- A count that is not positive returns no keys, and loses the place in the shard.
place_lost :
    (walk scans characters (text "0:5") (pos 0) two_scanned).0
    ≡ ok (some (record { cursor = text "0:0"; keys = [] }))
unfolding walk walk_from parse_shard_cursor partition str_eq str_isdigit int_str make_shard_cursor
    decimal
place_lost = refl
