-- ===== src/Librarian.antt =====
-- src/slidko/librarian/retrieve.py: the documents of a board and how far they can be trusted.
use slidko.Prelude.{String, Option, none, some, List, []}

abbrev pub tier_open_book : String
tier_open_book = "open-book"

abbrev pub tier_pinout_only : String
tier_pinout_only = "pinout-only"

abbrev pub tier_dark : String
tier_dark = "dark"

pub record Retrieval : Type 0 where
  pub board_id : String
  pub tier : String
  pub fragments : List (String × String)

-- What a fixture's JSON may hold.
pub record Fixture : Type 0 where
  pub tier : Option String
  pub fragments : Option (List (String × String))

abbrev or_dark : Option String → String
or_dark none = tier_dark
or_dark (some tier) = tier

abbrev or_nothing : Option (List (String × String)) → List (String × String)
or_nothing none = []
or_nothing (some fragments) = fragments

abbrev retrieval_of : String → Option Fixture → Retrieval
retrieval_of board_id none = record { board_id = board_id; tier = tier_dark; fragments = [] }
retrieval_of board_id (some fixture) = record {
  board_id = board_id;
  tier = or_dark fixture.tier;
  fragments = or_nothing fixture.fragments;
}

-- `FixtureLibrarian.retrieve`, over the parsed files of the fixtures folder.
unfoldable pub retrieve : (String → Option Fixture) → String → Retrieval
retrieve fixtures board_id = retrieval_of board_id (fixtures board_id)
