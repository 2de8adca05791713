-- ===== src/Commands.antt =====
-- fq/_commands.py: the encoders of the commands.
pub mod Words
pub mod Values
use fq_client_py.Prelude.{
  ℕ, Bool, true, false, ◌||◌, List, [], ◌∷◌, ◌++◌, Option, none, some, Str, Bytes, String, text, ℤ,
  pos, is_negative, exceeds, if◌then◌else◌,
}
use fq_client_py.Errors.{Result, ok, raise, value_out_of_range_error, ◌>>=◌, ◌>>◌}
use fq_client_py.Python.Split.{join}
use fq_client_py.Python.Utf8.{encode}
use fq_client_py.Python.Decimal.{str_int}
use fq_client_py.Types.{
  CappingKey, LimitKey, InspectSection, summary, section_value, max_value, protocol_version,
  scan_cursor_initial,
}

pub record Command : Type 0 where
  pub payload : Bytes
  pub read_only : Bool

-- An argument of `_join`: the source passes texts and integers.
pub data Part : Type 0 where
  str : Str → Part
  int : ℤ → Part

abbrev pub space : ℕ
space = b' '

-- `str(part)`
unfoldable pub str_part : Part → Result Str
str_part (str s) = ok s
str_part (int n) = str_int n

unfoldable pub str_parts : List Part → Result (List Str)
unfolding str_part
str_parts [] = ok []
str_parts (p ∷ ps) = do s ← str_part p; ss ← str_parts ps; ok (s ∷ ss)

-- `_join`
unfoldable pub join_parts : List Part → Result Bytes
join_parts parts = do words ← str_parts parts; encode (join space words)

unfoldable pub read_only_command : List Part → Result Command
read_only_command parts = do p ← join_parts parts; ok (record { payload = p; read_only = true })

unfoldable pub mutating_command : List Part → Result Command
mutating_command parts = do p ← join_parts parts; ok (record { payload = p; read_only = false })

unfoldable pub check_values : List ℤ → Result (Unit {0})
check_values [] = ok tt
check_values (v ∷ vs) =
    let rest = check_values vs in
    if is_negative v || exceeds v max_value then raise value_out_of_range_error else rest

-- A literal word of a command.
abbrev pub word : String → Part
word w = str (text w)

-- `parts.append(ttl)`, where it is not None
abbrev pub append_ttl : Option ℤ → List Part → List Part
append_ttl none parts = parts
append_ttl (some ttl) parts = parts ++ int ttl ∷ []

-- `if token:` is false of None and of the empty text.
unfoldable pub hello : Option Str → Result Command
hello none = read_only_command (word "HELLO" ∷ int (pos protocol_version) ∷ [])
hello (some []) = read_only_command (word "HELLO" ∷ int (pos protocol_version) ∷ [])
hello (some (c ∷ token)) =
    read_only_command
      (word "HELLO" ∷ int (pos protocol_version) ∷ word "AUTH" ∷ str (c ∷ token) ∷ [])

unfoldable pub incr : CappingKey → Result Command
incr k = mutating_command (word "INCR" ∷ str k.key ∷ int k.capping ∷ [])

unfoldable pub incrby : CappingKey → ℤ → Result Command
incrby k value = do
  check_values (value ∷ [])
  mutating_command (word "INCRBY" ∷ str k.key ∷ int k.capping ∷ int value ∷ [])

unfoldable pub get : CappingKey → Result Command
get k = read_only_command (word "GET" ∷ str k.key ∷ int k.capping ∷ [])

unfoldable pub watch : CappingKey → Result Command
watch k = read_only_command (word "WATCH" ∷ str k.key ∷ int k.capping ∷ [])

unfoldable pub delete : CappingKey → Result Command
delete k = mutating_command (word "DEL" ∷ str k.key ∷ int k.capping ∷ [])

unfoldable pub key_parts : List CappingKey → List Part
key_parts [] = []
key_parts (k ∷ ks) = str k.key ∷ int k.capping ∷ key_parts ks

unfoldable pub mdelete : List CappingKey → Result Command
unfolding key_parts
mdelete keys = mutating_command (word "MDEL" ∷ key_parts keys)

unfoldable pub rlimit_fixed_window : LimitKey → ℤ → Result Command
rlimit_fixed_window k limit = do
  check_values (limit ∷ [])
  mutating_command (word "RLIMIT" ∷ word "FW" ∷ str k.key ∷ int limit ∷ int k.window ∷ [])

unfoldable pub rlimit_sliding_window : LimitKey → ℤ → Result Command
rlimit_sliding_window k limit = do
  check_values (limit ∷ [])
  mutating_command (word "RLIMIT" ∷ word "SW" ∷ str k.key ∷ int limit ∷ int k.window ∷ [])

unfoldable pub rlimit_token_bucket : LimitKey → ℤ → ℤ → Result Command
rlimit_token_bucket k capacity refill_amount = do
  check_values (capacity ∷ refill_amount ∷ [])
  mutating_command
      (word "RLIMIT" ∷ word "TB" ∷ str k.key ∷ int capacity ∷ int refill_amount ∷ int k.window ∷ [])

unfoldable pub quota_set : Str → ℤ → Result Command
quota_set name limit = do
  check_values (limit ∷ [])
  mutating_command (word "QUOTA" ∷ word "SET" ∷ str name ∷ int limit ∷ [])

unfoldable pub quota_set_n : Str → ℤ → ℤ → Result Command
quota_set_n name limit clients = do
  check_values (limit ∷ [])
  mutating_command (word "QUOTA" ∷ word "SETN" ∷ str name ∷ int limit ∷ int clients ∷ [])

unfoldable pub quota_acquire : Str → ℤ → Str → Option ℤ → Result Command
quota_acquire name amount client_id ttl = do
  check_values (amount ∷ [])
  mutating_command
      (append_ttl ttl (word "QUOTA" ∷ word "ACQ" ∷ str name ∷ int amount ∷ str client_id ∷ []))

unfoldable pub quota_acquire_n : Str → Str → Option ℤ → Result Command
quota_acquire_n name client_id ttl =
    mutating_command (append_ttl ttl (word "QUOTA" ∷ word "ACQN" ∷ str name ∷ str client_id ∷ []))

unfoldable pub quota_acquire_lease : Str → ℤ → ℤ → Str → Option ℤ → Result Command
quota_acquire_lease name limit amount client_id ttl = do
  check_values (limit ∷ amount ∷ [])
  mutating_command (
      append_ttl ttl
        (word "QUOTA" ∷ word "ACQL" ∷ str name ∷ int limit ∷ int amount ∷ str client_id ∷ []))

unfoldable pub quota_release : Str → Str → Result Command
quota_release name client_id =
    mutating_command (word "QUOTA" ∷ word "REL" ∷ str name ∷ str client_id ∷ [])

unfoldable pub quota_delete : Str → Result Command
quota_delete name = mutating_command (word "QUOTA" ∷ word "DEL" ∷ str name ∷ [])

unfoldable pub quota_info : Str → Result Command
quota_info name = read_only_command (word "QUOTA" ∷ word "INF" ∷ str name ∷ [])

-- `cursor or SCAN_CURSOR_INITIAL`
abbrev pub or_initial : Str → Str
or_initial [] = scan_cursor_initial
or_initial (c ∷ s) = c ∷ s

unfoldable pub scan : ℤ → Str → Result Command
scan count cursor = read_only_command (word "SCAN" ∷ str (or_initial cursor) ∷ int count ∷ [])

unfoldable pub pscan : Str → ℤ → Str → Result Command
pscan prefix count cursor =
    read_only_command (word "PSCAN" ∷ str prefix ∷ str (or_initial cursor) ∷ int count ∷ [])

unfoldable pub flushdb : Result Command
flushdb = mutating_command (word "FLUSHDB" ∷ [])

unfoldable pub truncate : Result Command
truncate = mutating_command (word "TRUNCATE" ∷ [])

unfoldable pub inspect : InspectSection → Result Command
unfolding section_value
inspect summary = read_only_command (word "INSPECT" ∷ [])
inspect section = read_only_command (word "INSPECT" ∷ str (section_value section) ∷ [])

unfoldable pub stream : Result Command
stream = read_only_command (word "STREAM" ∷ [])

unfoldable pub pstream : Str → Result Command
pstream prefix = read_only_command (word "PSTREAM" ∷ str prefix ∷ [])

unfoldable pub qstream : Result Command
qstream = read_only_command (word "QSTREAM" ∷ [])

unfoldable pub qpstream : Str → Result Command
qpstream prefix = read_only_command (word "QPSTREAM" ∷ str prefix ∷ [])
