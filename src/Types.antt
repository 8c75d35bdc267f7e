-- ===== src/Types.antt =====
-- include/cache/common/types.h: keys, entries, statuses and results. The message of an error is not
-- modelled, and a Result holds data exactly when its status is OK, as its constructors build it.
use qc_database.Prelude.{
  ℕ, ◌≡◌, ◌↔◌, Bool, true, false, ◌&&◌, not, [], ◌∷◌, ◌++◌, ◌*◌, arith, if◌then◌else◌, Eq, list_eq,
  nat_eq, list_beq, list_beq_iff,
}
use qc_database.Std.Bytes.{Str, str_lt, str_lt_irrefl, str_lt_trans, str_lt_connex}
use qc_database.Std.OrderedMap.{StrictOrder}

pub record MultiLevelKey : Type 0 where
  pub primary_key : Str
  pub secondary_key : Str

abbrev pub colon : ℕ
colon = b':'

unfoldable pub to_string : MultiLevelKey → Str
to_string k = k.primary_key ++ colon ∷ k.secondary_key

-- operator==
abbrev pub key_beq : MultiLevelKey → MultiLevelKey → Bool
key_beq a b = list_beq a.primary_key b.primary_key && list_beq a.secondary_key b.secondary_key

-- operator<
abbrev pub key_lt : MultiLevelKey → MultiLevelKey → Bool
key_lt a b =
    if not (list_beq a.primary_key b.primary_key)
    then str_lt a.primary_key b.primary_key
    else str_lt a.secondary_key b.secondary_key

-- Times are milliseconds since the epoch.
pub record DataEntry : Type 0 where
  pub value : Str
  pub version : ℕ
  pub timestamp : ℕ
  pub deleted : Bool

-- DataEntry(), at the time `now`
abbrev pub default_entry : ℕ → DataEntry
default_entry now = record { value = []; version = 0; timestamp = now; deleted = false }

pub data Status : Type 0 where
  not_found version_conflict timed_out network_error storage_error permission_denied : Status
  invalid_argument cluster_error already_exists not_implemented service_unavailable : Status
  unauthorized forbidden deadlock_detected invalid_state transaction_aborted : Status
  insufficient_data : Status

pub data Result {ℓ} (A : Type ℓ) : Type ℓ where
  ok : A → Result A
  error : Status → Result A

pub record RangeQuery : Type 0 where
  pub start_key : MultiLevelKey
  pub end_key : MultiLevelKey
  pub limit : ℕ
  pub inclusive_start : Bool
  pub inclusive_end : Bool

abbrev pub max_key_size : ℕ
max_key_size = 256

abbrev pub max_value_size : ℕ
max_value_size = 4 * 1024

abbrev pub memtable_size_limit : ℕ
memtable_size_limit = 64 * 1024 * 1024

pub key_beq_iff : (a b : MultiLevelKey) → (key_beq a b ≡ true) ↔ (a ≡ b)
key_beq_iff a b =
    ground (
      arith,
      list_beq_iff a.primary_key b.primary_key,
      list_beq_iff a.secondary_key b.secondary_key,
    )

instance abbrev pub key_eq : Eq MultiLevelKey
key_eq = record { beq = key_beq; beq_iff = key_beq_iff }

pub key_lt_irrefl : (a : MultiLevelKey) → key_lt a a ≡ false
key_lt_irrefl a = ground (arith, str_lt_irrefl a.primary_key, str_lt_irrefl a.secondary_key)

pub key_lt_trans :
    (a b c : MultiLevelKey) → key_lt a b ≡ true → key_lt b c ≡ true → key_lt a c ≡ true
key_lt_trans a b c = ground (
  arith,
  list_beq_iff a.primary_key b.primary_key,
  list_beq_iff b.primary_key c.primary_key,
  list_beq_iff a.primary_key c.primary_key,
  str_lt_trans a.primary_key b.primary_key c.primary_key,
  str_lt_trans a.secondary_key b.secondary_key c.secondary_key,
  str_lt_trans b.primary_key a.primary_key b.primary_key,
  str_lt_irrefl a.primary_key,
  str_lt_irrefl b.primary_key,
)

pub key_lt_connex : (a b : MultiLevelKey) → key_lt a b ≡ false → key_lt b a ≡ false → a ≡ b
key_lt_connex a b = ground (
  arith,
  list_beq_iff a.primary_key b.primary_key,
  list_beq_iff b.primary_key a.primary_key,
  str_lt_connex a.primary_key b.primary_key,
  str_lt_connex a.secondary_key b.secondary_key,
)

-- operator< of keys is a strict total order, so std::map keeps one entry for each key.
instance abbrev pub key_order : StrictOrder MultiLevelKey
key_order = record {
  lt = key_lt;
  lt_irrefl = key_lt_irrefl;
  lt_trans = key_lt_trans;
  lt_connex = key_lt_connex;
}
