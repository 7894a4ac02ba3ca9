-- ===== src/Tokenizer.antt =====
-- packages/stream-validator/src/tokenizer: a JSON tokenizer that is fed bytes in chunks.
-- The state of the class JsonTokenizer, the events of handler.ts, and the results of its calls.
pub mod Bytes
pub mod Numbers
pub mod Strings
pub mod Escapes
pub mod Machine
pub mod Loop
pub mod Outcomes
pub mod Tells
pub mod Bounds
pub mod Grammar
pub mod Tests
use oaverify.Common.{
  ℕ, ◌+◌, ◌-◌, ◌*◌, ◌≡◌, Bool, true, false, Option, none, some, List, [], ◌∷◌, ◌++◌, length, Text,
  min, leb,
}

-- What JsonTokenizer calls on its handler, with the arguments of the call. The limits' callbacks,
-- which are expected to throw, are failures below.
pub data Event : Type 0 where
  on_start_object : (offset : ℕ) → Event
  on_end_object : (offset : ℕ) → Event
  on_start_array : (offset : ℕ) → Event
  on_end_array : (offset : ℕ) → Event
  on_key : (value : Text) (code_points start end : ℕ) → Event
  on_member_comma : (offset : ℕ) → Event
  on_string_start : (offset : ℕ) → Event
  on_string_chunk : (chunk : Text) (offset code_points end : ℕ) → Event
  on_string_end : (code_points start end : ℕ) → Event
  on_number : (raw : Text) (start end : ℕ) → Event
  on_boolean : (value : Bool) (start end : ℕ) → Event
  on_null : (start end : ℕ) → Event

-- `ST_VALUE` to `ST_IN_LITERAL`
pub data State : Type 0 where
  st_value : State
  st_value_or_end_array : State
  st_key_or_end_object : State
  st_key : State
  st_colon : State
  st_comma_or_end_array : State
  st_comma_or_end_object : State
  st_end : State
  st_in_string : State
  st_in_string_escape : State
  st_in_string_unicode : State
  st_in_number : State
  st_in_literal : State

-- `CTX_OBJECT` and `CTX_ARRAY`
pub data Context : Type 0 where
  ctx_object : Context
  ctx_array : Context

-- What a call throws. A limit of `none` is Infinity. The message of a parse error is left out.
pub data Thrown : Type 0 where
  parse_error : (offset : ℕ) → Thrown
  key_limit : (limit : Option ℕ) (offset start : ℕ) → Thrown
  number_limit : (limit : Option ℕ) (offset start : ℕ) → Thrown
  byte_limit : (at : Option ℕ) → Thrown
  span_limit : (at : Option ℕ) → Thrown
  decoding_error : Thrown
  out_of_fuel : Thrown

-- `disposed` is the outcome of a call in which the handler has called `dispose`: the loop of `write`
-- stops at its next test of the flag, `end` returns, and no later event is reported. What the rest
-- of the turn does to the fields that `dispose` has cleared is never read, since `ended` is set too.
pub data Result {ℓ} (A : Type ℓ) : Type ℓ where
  done : A → Result A
  disposed : Result A
  thrown : Thrown → Result A

infixl 5 ◌>>=◌
abbrev pub ◌>>=◌ {ℓ κ} : {A : Type ℓ} {B : Type κ} → Result A → (A → Result B) → Result B
done a >>= k = k a
disposed >>= k = disposed
thrown e >>= k = thrown e

-- The platform's TextDecoder for UTF-8 with `ignoreBOM`. `decode fatal held bytes stream` gives the
-- text and what is held for the next call, or `none` where a fatal decoder throws.
pub record TextDecoder : Type 1 where
  pub Held : Type 0
  pub fresh : Held
  pub decode : Bool → Held → List ℕ → Bool → Option (Text × Held)

-- The fields of JsonTokenizer. `offset` is `baseOffset + i`: it goes on with each byte. The field
-- `disposed` is an outcome above, and `ended` where `dispose` is called between writes. `handler` is
-- the state of the handler.
pub record Tokenizer (D : TextDecoder) (H : Type 0) : Type 0 where
  pub handler : H
  pub decoder : D.Held
  pub strict_utf8 : Bool
  pub max_key_bytes : Option ℕ
  pub max_number_bytes : Option ℕ
  pub utf8_pending : List ℕ
  pub utf8_pending_offset : ℕ
  pub state : State
  pub stack : List Context
  pub saw_root_value : Bool
  pub ended : Bool
  pub offset : ℕ
  pub string_is_key : Bool
  pub string_start : ℕ
  pub key_buf : Text
  pub str_code_points : ℕ
  pub pending_high_surrogate : Bool
  pub uni_value : ℕ
  pub uni_digits : ℕ
  pub token_start : ℕ
  pub member_commas : Bool
  pub byte_limit_at : Option ℕ
  pub limit_counts_all : Bool
  pub span_limit_at : Option ℕ
  pub num_buf : Text
  pub lit_expected : Text
  pub lit_value : Option Bool
  pub lit_pos : ℕ

-- What a callback of the handler calls on the tokenizer.
pub data Call : Type 0 where
  calls_dispose : Call
  calls_set_byte_limit : (at : Option ℕ) (counts_all : Bool) → Call
  calls_set_span_limit : (at : Option ℕ) → Call
  calls_enable_member_commas : Call

-- A handler: its state after each event, and what it calls on the tokenizer before it returns.
pub record Handler (H : Type 0) : Type 0 where
  pub hears : H → Event → H
  pub calls : H → Event → List Call

-- A handler that never calls back.
abbrev pub silent : {H : Type 0} → (H → Event → H) → Handler H
silent on = record { hears = on; calls = λ h e. [] }

module _ {D : TextDecoder} {H : Type 0} where
  -- `enableMemberCommas`
  abbrev pub enable_member_commas : Tokenizer D H → Tokenizer D H
  enable_member_commas s = record s { member_commas = true }

  -- `setByteLimit`
  abbrev pub set_byte_limit : Tokenizer D H → Option ℕ → Bool → Tokenizer D H
  set_byte_limit s at counts_all = record s { byte_limit_at = at; limit_counts_all = counts_all }

  -- `setSpanLimit`
  abbrev pub set_span_limit : Tokenizer D H → Option ℕ → Tokenizer D H
  set_span_limit s at = record s { span_limit_at = at }

  -- The calls of a callback, one after the other.
  abbrev pub call_back : List Call → Tokenizer D H → Result (Tokenizer D H)
  call_back [] s = done s
  call_back (calls_dispose ∷ calls) s = disposed
  call_back (calls_set_byte_limit at counts_all ∷ calls) s =
      call_back calls (set_byte_limit s at counts_all)
  call_back (calls_set_span_limit at ∷ calls) s = call_back calls (set_span_limit s at)
  call_back (calls_enable_member_commas ∷ calls) s = call_back calls (enable_member_commas s)

  -- A call of the handler, with what it calls back.
  abbrev pub tell : Handler H → Tokenizer D H → Event → Result (Tokenizer D H)
  tell on s event =
      call_back (on.calls s.handler event) (record s { handler = on.hears s.handler event })

-- `at >= limit`
abbrev pub reaches : ℕ → Option ℕ → Bool
reaches at none = false
reaches at (some limit) = leb limit at

-- `Math.min(n, limit - at)`, stopping at 0
abbrev pub room : ℕ → Option ℕ → ℕ → ℕ
room n none at = n
room n (some limit) at = min n (limit - at)

-- `Math.min` of two limits
abbrev pub min_limit : Option ℕ → Option ℕ → Option ℕ
min_limit none b = b
min_limit (some a) none = some a
min_limit (some a) (some b) = some (min a b)

-- `n + limit`
abbrev pub limit_from : ℕ → Option ℕ → Option ℕ
limit_from n none = none
limit_from n (some limit) = some (n + limit)

-- `limit === 0`
abbrev pub is_zero : Option ℕ → Bool
is_zero none = false
is_zero (some limit) = leb limit 0

abbrev pub state_after : List Context → State
state_after [] = st_end
state_after (ctx_array ∷ stack) = st_comma_or_end_array
state_after (ctx_object ∷ stack) = st_comma_or_end_object

abbrev pub is_root : List Context → Bool → Bool
is_root [] saw = true
is_root (c ∷ stack) saw = saw

-- The limit on every byte: the span limit, and the byte limit where it counts all.
abbrev pub hard_limit : Bool → Option ℕ → Option ℕ → Option ℕ
hard_limit true byte span = min_limit byte span
hard_limit false byte span = span

module _ {D : TextDecoder} {H : Type 0} where
  -- `scanEnd`: where a batch scan of the rest of a chunk must stop, counted from its first byte.
  unfoldable pub scan_end : Tokenizer D H → List ℕ → ℕ
  scan_end s chunk =
      room (length chunk) (hard_limit s.limit_counts_all s.byte_limit_at s.span_limit_at) s.offset

  -- `afterValue`
  unfoldable pub after_value : Tokenizer D H → Tokenizer D H
  after_value s = record s {
    state = state_after s.stack;
    saw_root_value = is_root s.stack s.saw_root_value;
  }
