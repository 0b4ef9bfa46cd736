-- ===== src/Knowledge/Processor/Tests.antt =====
-- Two parsers of protoneo/knowledge/processor.py, and the theorems at them.
use protoneo.Prelude.{
  ℕ, ◌≤◌, ◌≡◌, refl, true, not, ◌&&◌, none, some, [], ◌∷◌, ◌=ℕ◌, if◌then◌else◌, any, All,
}
use protoneo.Agents.{Document}
use protoneo.Knowledge.Processor.{
  File, Parser, Processor, insert_parser, sort_parsers, register_parser, processed, post_process,
  is_usable, preferred_parser, add_candidates, attempt, try_parsers, process,
}
use protoneo.Knowledge.Processor.Outcomes.{
  passes, is_processed, is_no_parser, is_not_found, succeeds, process-outcome,
}
use protoneo.Knowledge.Processor.Priorities.{register_parser-Descending, process-highest}

abbrev text_parser : Parser
text_parser = record {
  name = "text";
  supported_extensions = ".txt" ∷ ".md" ∷ [];
  available = true;
  parse = λ file. some (record { text = file.name; markdown = "" });
}

abbrev broken_parser : Parser
broken_parser = record {
  name = "broken";
  supported_extensions = ".md" ∷ [];
  available = true;
  parse = λ file. none;
}

abbrev heap : ℕ → Parser
heap r = if r =ℕ 0 then text_parser else broken_parser

abbrev processor : Processor
processor =
    register_parser 1 5 (register_parser 0 2 (record { parsers = []; post_processors = [] }))

abbrev file : File
file = record { stem = "paper"; name = "paper.md"; suffix = ".md"; on_disk = true }

abbrev paper : Document
paper = record {
  document_id = "paper";
  filename = "paper.md";
  text = "paper.md";
  markdown = "";
  chunks = [];
}

falls_back : process heap processor file ".md" "" ≡ processed paper
unfolding process try_parsers attempt add_candidates preferred_parser is_usable register_parser
    sort_parsers insert_parser post_process
falls_back = refl

process-outcome_example :
    (is_processed (process heap processor file ".md" "broken")
      ≡ (file.on_disk && any (passes heap ".md" (succeeds heap processor file)) processor.parsers))
    × ((is_no_parser (process heap processor file ".md" "broken")
          ≡ (file.on_disk && not (any (λ (e : ℕ × ℕ). is_usable heap ".md" e.1) processor.parsers)))
        × (is_not_found (process heap processor file ".md" "broken") ≡ not file.on_disk))
process-outcome_example = process-outcome heap processor file ".md" "broken"

process-highest_example :
    (e : ℕ × ℕ) × ((is_usable heap ".md" e.1 ≡ true)
      × ((attempt heap processor file e.1 ≡ some paper)
          × ((any (λ (x : ℕ × ℕ). x.0 =ℕ e.0 && x.1 =ℕ e.1) processor.parsers ≡ true)
              × All
                  (λ x.
                    (is_usable heap ".md" x.1 && succeeds heap processor file x.1) ≡ true
                    → x.0 ≤ e.0)
                  processor.parsers)))
process-highest_example =
    process-highest heap processor file ".md" paper
      (register_parser-Descending 1 5
        (register_parser 0 2 (record { parsers = []; post_processors = [] })))
      falls_back
