-- ===== src/Tests/Streams.antt =====
-- A stream of the toy venue and the theorems about it.
use market_aggregator.Common.{ℕ, true, false, some, List, [], ◌∷◌, ◌≡◌, ◌⊎◌, Text}
use market_aggregator.Core.Book.{is_live}
use market_aggregator.Core.Book.Validity.{IsValid}
use market_aggregator.Venues.Sync.{FrameSource, VenueBook, Outcome, opened, limited, started}
use market_aggregator.Venues.Sync.Replay.{events_of, replay}
use market_aggregator.Venues.Sync.Session.{Input, session, session-replay}
use market_aggregator.Venues.Sync.Validity.{session-IsValid}
use market_aggregator.Tests.Data.{whole, at_ms, toy, toy-IsLawful, toy_frame}

abbrev symbol : Text
symbol = 66 ∷ []

-- A snapshot, two deltas, a checksum, a frame that fails, a delta after it, an audit, the loss of
-- the connection with a delta before the next snapshot, and a snapshot over REST.
abbrev inputs : List Input
inputs =
    Input.arrived (toy_frame FrameSource.web_socket 1 1)
    ∷ Input.arrived (toy_frame FrameSource.web_socket 2 2)
    ∷ Input.arrived (toy_frame FrameSource.web_socket 3 3)
    ∷ Input.arrived (toy_frame FrameSource.web_socket 9 4)
    ∷ Input.arrived (toy_frame FrameSource.web_socket 2 5)
    ∷ Input.arrived (toy_frame FrameSource.rest_audit 65 6)
    ∷ Input.reconnected (at_ms 7)
    ∷ Input.arrived (toy_frame FrameSource.web_socket 2 8)
    ∷ Input.arrived (toy_frame FrameSource.rest_snapshot 65 9)
    ∷ []

abbrev lived : VenueBook ℕ ℕ × List (Outcome ℕ)
lived = session toy (started toy (some 1) 0 symbol) inputs

abbrev replayed : VenueBook ℕ ℕ
replayed = replay toy (started toy (some 1) 5 symbol) (events_of lived.1)

session-replay_example :
    (replayed.book.bids ≡ lived.0.book.bids)
    × (replayed.book.asks ≡ lived.0.book.asks)
    × ((is_live lived.0.book.state ≡ false) ⊎ (is_live replayed.book.state ≡ true))
session-replay_example = session-replay toy toy-IsLawful (some 1) 0 5 symbol inputs

session-IsValid_example : IsValid (session toy (limited toy (opened toy 0 symbol) 2) inputs).0.book
session-IsValid_example = session-IsValid toy 0 symbol 2 inputs
