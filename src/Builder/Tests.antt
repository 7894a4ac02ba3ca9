-- ===== src/Builder/Tests.antt =====
-- Runs of the builder, and the examples of its theorems.
use oaverify.Common.{ℕ, ◌≡◌, ◌↔◌, refl, true, none, List, [], ◌∷◌, codes}
use oaverify.Tokenizer.{
  silent, st_end, Event, on_string_start, on_string_chunk, on_string_end, Tokenizer, Result, done,
  ◌>>=◌,
}
use oaverify.Tokenizer.Machine.{new_tokenizer}
use oaverify.Tokenizer.Loop.{write, end, feed}
use oaverify.Tokenizer.Tests.{ascii, returned_or}
use oaverify.Builder.{Builder, new_builder, handle, complete}
use oaverify.Builder.Complete.{complete-feed_iff}
use oaverify.Builder.Denotes.{Denotes}

abbrev building : Tokenizer ascii Builder
building = new_tokenizer ascii new_builder true none none

abbrev chunks : List (List ℕ)
chunks = codes "{\"a\": [nu" ∷ codes "ll, \"b\"]}" ∷ []

abbrev chunks_read : Result (Tokenizer ascii Builder)
chunks_read = feed (silent handle) building chunks >>= end (silent handle)

abbrev two_slices : List Event
two_slices =
    on_string_start 0
    ∷ on_string_chunk (codes "a") 1 1 2
    ∷ on_string_chunk (codes "b") 2 2 3
    ∷ on_string_end 2 0 4
    ∷ []

abbrev half_read : Result (Tokenizer ascii Builder)
half_read = feed (silent handle) building (codes "[1" ∷ [])

half_done : half_read ≡ done (returned_or half_read building)
unfolding write handle
half_done = refl

complete-feed_iff_example :
    (complete (returned_or half_read building).handler ≡ true)
    ↔ ((returned_or half_read building).state ≡ st_end)
complete-feed_iff_example =
    complete-feed_iff ascii true none none (codes "[1" ∷ []) (returned_or half_read building)
      half_done
