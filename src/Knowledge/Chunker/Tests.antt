-- ===== src/Knowledge/Chunker/Tests.antt =====
-- Short texts for protoneo/knowledge/chunker.py, and the theorems at them.
use protoneo.Prelude.{ℕ, ◌≡◌, refl, sym, Bool, ◌||◌, none, some, [], ◌∷◌, arith, ◌=ℕ◌}
use protoneo.Knowledge.Chunker.{
  Text, lstrip, rstrip, strip, begins, rfind, sentence_end, cut_end, next_start, chunk_loop,
  chunk_text,
}
use protoneo.Knowledge.Chunker.Total.{Covered, chunk_text-Covered}
use protoneo.Knowledge.Chunker.Sizes.{chunk_text-stuck}

abbrev space : ℕ → Bool
space c = c =ℕ 32 || c =ℕ 10

-- "abcd. abcdefgh"
abbrev sentences : Text
sentences = 97 ∷ 98 ∷ 99 ∷ 100 ∷ 46 ∷ 32 ∷ 97 ∷ 98 ∷ 99 ∷ 100 ∷ 101 ∷ 102 ∷ 103 ∷ 104 ∷ []

cuts_sentences :
    chunk_text space 20 sentences 10 2
    ≡ some (
        (97 ∷ 98 ∷ 99 ∷ 100 ∷ 46 ∷ [])
        ∷ (46 ∷ 32 ∷ 97 ∷ 98 ∷ 99 ∷ 100 ∷ 101 ∷ 102 ∷ 103 ∷ 104 ∷ [])
        ∷ [])
unfolding chunk_text chunk_loop next_start cut_end sentence_end rfind begins strip lstrip rstrip
cuts_sentences = refl

first_cut : cut_end 10 0 sentences ≡ 6
unfolding cut_end sentence_end rfind begins
first_cut = refl

chunk_text-Covered_example : Covered space 10 2 sentences 0 (chunk_text space 20 sentences 10 2)
chunk_text-Covered_example =
    chunk_text-Covered space 10 2 sentences 20 (omega arith) (omega arith) (omega arith)
      (omega arith)

chunk_text-stuck_example : chunk_text space 1000 sentences 10 6 ≡ none
chunk_text-stuck_example =
    chunk_text-stuck space 10 6 sentences 1000 (omega arith) (rw first_cut (omega arith))
      (sym first_cut)
