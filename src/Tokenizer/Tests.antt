-- ===== src/Tokenizer/Tests.antt =====
-- Runs of the tokenizer, and the examples of its theorems.
use oaverify.Common.{
  ℕ, ◌+◌, length, ◌≡◌, ◌≢◌, ◌↔◌, refl, true, Option, none, some, List, [], ◌∷◌, ◌++◌, codes, ltb,
  all, if◌then◌else◌, map,
}
use oaverify.Tokenizer.{
  silent, disposed, Call, calls_dispose, calls_set_span_limit, span_limit, Event, on_key,
  on_start_object, on_end_object, on_start_array, on_end_array, on_number, on_boolean, TextDecoder,
  Tokenizer, Result, done, thrown, ◌>>=◌,
}
use oaverify.Tokenizer.Machine.{new_tokenizer}
use oaverify.Tokenizer.Loop.{write, end, feed}
use oaverify.Tokenizer.Strings.{points_of, count_code_points}
use oaverify.Tokenizer.Strings.CodePoints.{points_of-count_code_points}
use oaverify.Tokenizer.Bytes.{number_re, first_ill_formed_utf8}
use oaverify.Tokenizer.Bytes.NumberGrammar.{NumberText, number_re_iff}
use oaverify.Tokenizer.Bytes.Utf8.{Scalar, Encoded, WellFormed}
use oaverify.Tokenizer.Bytes.FirstIllFormed.{first_ill_formed_utf8-Found}
use oaverify.Tokenizer.Outcomes.{Returns}
use oaverify.Tokenizer.Bounds.Loop.{ReadTo, write-ReadTo}
use oaverify.Tokenizer.Grammar.{JsonText, Emits, deliver}
use oaverify.Tokenizer.Grammar.Loop.{end-feed_heard_one}

-- A decoder of ASCII, where each other byte is malformed.
abbrev pub ascii : TextDecoder
ascii = record {
  Held = Unit;
  fresh = tt;
  decode = λ fatal held bytes stream.
      if all (λ b. ltb b 0x80) bytes
      then some (bytes, tt)
      else if fatal
      then none
      else some (map (λ b. if ltb b 0x80 then b else 0xfffd) bytes, tt);
}

abbrev pub log : List Event → Event → List Event
log events event = events ++ event ∷ []

abbrev pub logged : Tokenizer ascii (List Event)
logged = new_tokenizer ascii [] true none none

abbrev events_of : Result (Tokenizer ascii (List Event)) → Option (List Event)
events_of (done s) = some s.handler
events_of disposed = none
events_of (thrown e) = none

read_object :
    events_of (write (silent log) logged (codes "{\"a\": [1.5,true]}") >>= end (silent log))
    ≡ some (
        on_start_object 0
        ∷ on_key (codes "a") 1 1 4
        ∷ on_start_array 6
        ∷ on_number (codes "1.5") 7 10
        ∷ on_boolean true 11 15
        ∷ on_end_array 15
        ∷ on_end_object 16
        ∷ [])
unfolding write end
read_object = refl

-- A handler that disposes the tokenizer at the first array, as one that has its answer does.
abbrev stops_at_array : List Event → Event → List Call
stops_at_array events (on_start_array offset) = calls_dispose ∷ []
stops_at_array events event = []

read_until_array :
    write (record { hears = log; calls = stops_at_array }) logged (codes "[0]") ≡ disposed
unfolding write
read_until_array = refl

-- A handler that sets a span limit at the end of the first number.
abbrev limits_at_number : List Event → Event → List Call
limits_at_number events (on_number raw start end) = calls_set_span_limit (some (end + 1)) ∷ []
limits_at_number events event = []

read_until_limit :
    write (record { hears = log; calls = limits_at_number }) logged (codes "[0,1]")
    ≡ thrown (span_limit (some 3))
unfolding write
read_until_limit = refl

write-ReadTo_example :
    Returns
      (ReadTo (logged.offset + length (codes "[1, 2.5]")))
      (write (silent log) logged (codes "[1, 2.5]"))
write-ReadTo_example = write-ReadTo (silent log) logged (codes "[1, 2.5]") tt

-- What a call returns, or else the tokenizer given.
abbrev pub returned_or :
    {H : Type 0} → Result (Tokenizer ascii H) → Tokenizer ascii H → Tokenizer ascii H
returned_or (done s) other = s
returned_or disposed other = other
returned_or (thrown e) other = other

abbrev two_chunks : List (List ℕ)
two_chunks = codes "[tr" ∷ codes "ue, \"a" ∷ codes "b\"]" ∷ []

abbrev two_chunks_read : Result (Tokenizer ascii (List Event))
two_chunks_read = feed (silent log) logged two_chunks >>= end (silent log)

two_chunks_end : two_chunks_read ≡ done (returned_or two_chunks_read logged)
unfolding write end
two_chunks_end = refl

end-feed_heard_one_example :
    (value : JsonText) × (es : List Event) × Emits value es
    × ((returned_or two_chunks_read logged).handler ≡ deliver log [] es)
end-feed_heard_one_example =
    end-feed_heard_one (silent log) [] true none none two_chunks
      (returned_or two_chunks_read logged) two_chunks_end

number_re_iff_example : (number_re (codes "-1.5e+30") ≡ true) ↔ NumberText (codes "-1.5e+30")
number_re_iff_example = number_re_iff (codes "-1.5e+30")

-- An e with an acute accent, and then a surrogate, which no well-formed text encodes.
abbrev surrogate_bytes : List ℕ
surrogate_bytes = 0x65 ∷ 0xc3 ∷ 0xa9 ∷ 0xed ∷ 0xa0 ∷ 0x80 ∷ []

found_surrogate : first_ill_formed_utf8 surrogate_bytes ≡ 3
unfolding first_ill_formed_utf8
found_surrogate = refl

first_ill_formed_utf8-Found_example :
    (pre : List ℕ) × (rest : List ℕ) × (surrogate_bytes ≡ pre ++ rest)
    × (length pre ≡ first_ill_formed_utf8 surrogate_bytes)
    × WellFormed pre
    × ((p : ℕ) (xs ys : List ℕ) → Scalar p → Encoded p xs → rest ≢ xs ++ ys)
first_ill_formed_utf8-Found_example = first_ill_formed_utf8-Found surrogate_bytes

points_of-count_code_points_example :
    points_of (codes "ab") (codes "ab") ≡ count_code_points (codes "ab")
points_of-count_code_points_example =
    points_of-count_code_points (codes "ab") (codes "ab") (λ ascii same. refl)
