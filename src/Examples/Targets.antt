-- ===== src/Examples/Targets.antt =====
-- The theorem on the targets of a literal search at concrete documents.
use greplm.Common.{true, false, [], ◌∷◌, some}
use greplm.Examples.Indexed.{needle}
use greplm.Search.{SearchQuery}

abbrev needle_query : SearchQuery
needle_query = record {
  pattern = needle;
  regex = false;
  case_insensitive = false;
  whole_word = false;
  lang = some [];
  path = some (1 ∷ []);
  limit = 50;
  offset = 0;
  max_per_file = 20;
  exhaustive = true;
}
