-- ===== src/Tokenizer/Bounds/Scans.antt =====
-- What decoding and emitting leave as it was, and the room of a scan in a string.
use oaverify.Common.{
  ℕ, zero, suc, ◌+◌, ◌*◌, ◌^◌, ◌≤◌, ◌<◌, ◌≡◌, refl, ◌∙◌, Bool, false, ◌&&◌, Option, none, some,
  List, [], ◌∷◌, arith, ltb, leb, if◌then◌else◌, length, get_elem?, Bool-cases, Option-cases, inl,
  inr, Text,
}
use native.Mathlib.Omega.{pow_step}
use oaverify.Common.Percent.{hex_value}
use oaverify.Tokenizer.Strings.{
  emit_string_text, decode_run, hold_utf8_tail, take_run, flush, flush_held_partial, string_room,
  stop_at, key_room,
}
use oaverify.Tokenizer.Tells.{tell-Returns_done}
use oaverify.Tokenizer.Outcomes.{Returns, Returns->>=, Returns-if, Returns-weaken}
use oaverify.Tokenizer.Bounds.{AtMost, KeyFits}
use oaverify.Tokenizer.{
  Handler, on_string_chunk, State, TextDecoder, Tokenizer, limit_from, Context, reaches, scan_end,
  room, hard_limit,
}

room-le : (n at : ℕ) (limit : Option ℕ) → room n limit at ≤ n
room-le n at none = omega arith
room-le n at (some l) = omega arith

key_room-le : (limit : Option ℕ) (end start offset : ℕ) → key_room limit end start offset ≤ end
key_room-le none end start offset = omega arith
key_room-le (some l) end start offset = omega arith

key_room-AtMost :
    (limit : Option ℕ) (end start offset k : ℕ)
    → AtMost offset (limit_from start limit)
    → k ≤ key_room limit end start offset
    → AtMost (offset + k) (limit_from start limit)
key_room-AtMost none end start offset k h e = tt
key_room-AtMost (some l) end start offset k h e = omega arith

key_room-pos :
    (limit : Option ℕ) (end start offset : ℕ)
    → 0 < end
    → reaches offset (limit_from start limit) ≡ false
    → 0 < key_room limit end start offset
key_room-pos none end start offset h k = h
key_room-pos (some l) end start offset h k =
    let below : offset < start + l = ground arith in omega arith

pub stop_at-lt : (n i : ℕ) (chunk : List ℕ) (b : ℕ) → stop_at n i chunk ≡ some b → i < n
stop_at-lt n i chunk b h = ground arith

get_elem?-none : (xs : List ℕ) (i : ℕ) → get_elem? xs i ≡ none → length xs ≤ i
get_elem?-none [] i h = omega arith
get_elem?-none (x ∷ xs) zero h = cc
get_elem?-none (x ∷ xs) (suc i) h = omega (arith, get_elem?-none xs i h)

pub stop_at-none : (n i : ℕ) (chunk : List ℕ) → n ≤ length chunk → stop_at n i chunk ≡ none → n ≤ i
stop_at-none n i chunk fits h = elim (Bool-cases (ltb i n)) [
  | inl e ↦ omega (arith, get_elem?-none chunk i (rw e at h))
  | inr e ↦ ground arith
]

pub next-AtMost :
    (offset : ℕ) (limit : Option ℕ) → reaches offset limit ≡ false → AtMost (offset + 1) limit
next-AtMost offset none h = tt
next-AtMost offset (some l) h = ground arith

pub hex_value-lt : (b v : ℕ) → hex_value b ≡ some v → v < 16
unfolding hex_value
hex_value-lt b v h = ground arith

pub nibble-lt : (u v d : ℕ) → u < 16 ^ d → v < 16 → u * 16 + v < 16 ^ (d + 1)
nibble-lt u v d h k =
    let next : d + 1 ≡ suc d = omega arith in rw (next, pow_step 16 d) (omega arith)

module _ {D : TextDecoder} {H : Type 0} where
  pub string_room-le : (s : Tokenizer D H) (chunk : List ℕ) → string_room s chunk ≤ length chunk
  unfolding string_room scan_end
  string_room-le s chunk = omega (
    arith,
    key_room-le (if s.string_is_key then s.max_key_bytes else none) (scan_end s chunk)
        s.string_start s.offset,
    room-le (length chunk) s.offset (hard_limit s.limit_counts_all s.byte_limit_at s.span_limit_at),
  )

  -- A key goes on within its limit.
  pub string_room-KeyFits :
      (s : Tokenizer D H) (chunk : List ℕ) (k : ℕ)
      → KeyFits s
      → k ≤ string_room s chunk
      → KeyFits (record s { offset = s.offset + k })
  unfolding string_room
  string_room-KeyFits s chunk k fits h is_key =
      let (begun, most) = fits is_key in
      (
        omega arith,
        key_room-AtMost s.max_key_bytes (scan_end s chunk) s.string_start s.offset k most
            (rw is_key at h),
      )

  pub string_room-pos :
      (s : Tokenizer D H) (chunk : List ℕ)
      → 0 < scan_end s chunk
      → (s.string_is_key && reaches s.offset (limit_from s.string_start s.max_key_bytes)) ≡ false
      → 0 < string_room s chunk
  unfolding string_room
  string_room-pos s chunk h k = elim (Bool-cases s.string_is_key) [
    | inl e ↦
        rw e (key_room-pos s.max_key_bytes (scan_end s chunk) s.string_start s.offset h (rw e at k))
    | inr e ↦ rw e h
  ]

module _ {D : TextDecoder} {H : Type 0} where
  abbrev frame : Tokenizer D H → ℕ × State × List Context × Bool × ℕ × Option ℕ
  frame s = (s.offset, s.state, s.stack, s.string_is_key, s.string_start, s.max_key_bytes)

  -- A run, a flush or an escape leaves these as they were.
  abbrev pub Kept : Tokenizer D H → Tokenizer D H → Type 0
  Kept s s' = frame s' ≡ frame s

  pub decode_run-Kept :
      (s : Tokenizer D H) (run : List ℕ) (at_end : Bool)
      → Returns (λ p. Kept s p.1) (decode_run s run at_end)
  unfolding decode_run hold_utf8_tail
  decode_run-Kept s run at_end = elim (Option-cases (D.decode s.strict_utf8 s.decoder run at_end)) [
    | inl e ↦
        rw (e, Returns)
          (elim (Bool-cases s.strict_utf8) [ inl k ↦ rw k (λ h. cc) | inr k ↦ rw k (λ h. cc) ])
    | inr ((text, held), e) ↦
        rw (e, Returns)
          (elim (Bool-cases s.strict_utf8) [
            | inl k ↦ rw k (elim (Bool-cases at_end) [ inl l ↦ rw l refl | inr l ↦ rw l refl ])
            | inr k ↦ rw k refl
          ])
  ]

  pub flush-Kept : (s : Tokenizer D H) → Returns (λ p. Kept s p.1) (flush s)
  unfolding flush
  flush-Kept s = elim (Option-cases (D.decode s.strict_utf8 s.decoder [] false)) [
    | inl e ↦
        rw (e, Returns)
          (elim (Bool-cases s.strict_utf8) [ inl k ↦ rw k (λ h. cc) | inr k ↦ rw k (λ h. cc) ])
    | inr ((text, held), e) ↦ rw (e, Returns) refl
  ]

module _ {D : TextDecoder} {H : Type 0} (on : Handler H) where
  pub emit_string_text-Kept :
      (s : Tokenizer D H) (text : Text) (offset end : ℕ)
      → Returns (Kept s) (emit_string_text on s text offset end)
  unfolding emit_string_text
  emit_string_text-Kept s text offset end =
      Returns-if (Kept s) s.string_is_key _ _ (λ e. refl)
        (λ e.
          tell-Returns_done on s (on_string_chunk text offset s.str_code_points end) (Kept s)
            (λ byte all span commas. refl))

  pub take_run-Kept :
      (s : Tokenizer D H) (run : List ℕ) (at_end : Bool)
      → Returns (Kept s) (take_run on s run at_end)
  unfolding take_run
  take_run-Kept s run at_end =
      Returns->>= (λ p. Kept s p.1) (Kept s)
        (decode_run (record s { pending_high_surrogate = false }) run at_end) _
        (decode_run-Kept (record s { pending_high_surrogate = false }) run at_end)
        (λ (text, s') h.
          Returns-if (Kept s) (leb (length text) 0) _ _ (λ e. h)
            (λ e.
              Returns-weaken (Kept s') (Kept s) (emit_string_text on _ text _ _) (λ a k. k ∙ h)
                (emit_string_text-Kept _ text _ _)))

  pub flush_held_partial-Kept :
      (s : Tokenizer D H) (offset : ℕ) → Returns (Kept s) (flush_held_partial on s offset)
  unfolding flush_held_partial
  flush_held_partial-Kept s offset =
      Returns->>= (λ p. Kept s p.1) (Kept s) (flush s) _ (flush-Kept s)
        (λ (text, s') h.
          Returns-if (Kept s) (leb (length text) 0) _ _ (λ e. h)
            (λ e.
              Returns-weaken (Kept s') (Kept s) (emit_string_text on _ text offset offset)
                (λ a k. k ∙ h) (emit_string_text-Kept _ text offset offset)))
