-- ===== src/Lib.antt =====
-- rfish, a chess engine in safe Rust: the parts of crates/rfish-engine/src on which every other part
-- stands, modelled and proved.
--
-- The board's vocabulary (board/types.rs, board/bitboard.rs) is small numbers with packed fields: a
-- piece is four bits, a square six, a move sixteen, a set of squares sixty-four. The search keeps what
-- it learns in shared tables: the transposition table (search/tt.rs), keyed by the position, of packed
-- entries with a replacement policy; and the history tables (search/history.rs), which order the moves.
-- A score leaves the search through search/score.rs. The search probes the transposition table, which
-- answers with the entry and a handle on the slot; it stores through that handle. A score is stored as
-- a distance from its node (`value_to_tt`) and read as one from the root (`value_from_tt`).
--
-- A position (board/position.rs) is a board with the sets and counts kept beside it, and a state that a
-- move carries forward step by step and that its undo takes from an archive. It reads the attacks of
-- the sliders (board/attacks.rs) and the random words of its keys (board/zobrist.rs), which are
-- arguments of its operations here: the theorems hold for any such tables. What a move writes to the
-- board (Board.Position.Moves) and to the state (Board.Position.State) are separate functions of the
-- position before it, put together in Board.Position.Transition.
--
-- The move generator (board/movegen.rs) lists the moves of a position from its sets, its blockers and
-- the attacked squares. A move that comes from elsewhere is tested by `legal`. The move picker
-- (search/movepick.rs) asks the generator for the captures and later for the quiets, scores and sorts
-- them in its buffer, and hands them out one at a time, by stages; Search.MovePicker.Pending is the
-- abstract view of it, the queue of the moves that are still to come. What it reads of the position
-- and of the histories is the record `Node`, and Search.MovePicker.Legal fills that from the
-- generator. A capture is deferred by the exchange evaluation (`see_ge`).
--
-- Files, with the code each models:
--   Prelude         lists, tests, integers and the digits of words that the parts share
--   Board.Piece     board/types.rs: Color, PieceType, Piece
--   Board.Square    board/types.rs: File, Rank, Square, SquareOrNone, Direction
--   Board.Castling  board/types.rs: CastlingRights
--   Board.Move      board/types.rs: MoveType, Move (from and to are from_square and to_square)
--   Board.Value     board/types.rs: Value and its landmarks, Ply, Bound (from_raw is bound_from_raw),
--                   PosKey::for_tt
--   Board.Bitboard  board/bitboard.rs: Bitboard and its iterator (iter, squares)
--   Board.Bitboard.Steps  board/bitboard.rs: step_attacks and its tables, file_bb, rank_bb
--   Board.Attacks   board/attacks.rs: sliding_attacks, the rays of RayTables, Sliders as an interface
--   Board.MoveGen   board/movegen.rs: GenType, generate_into with its parts (Pawns, Legal),
--                   generate_legal, has_legal_move
--   Board.Legality  board/position.rs: legal, is_draw
--   Board.Notation  board/movegen.rs: parse_uci_move, move_to_uci; board/types.rs: Move's Debug
--   Board.Cuckoo    board/cuckoo.rs: h1, h2, the insertion of one move, lookup
--   Board.Zobrist   board/zobrist.rs: next_key, Tables, build
--   Board.Placement board/position.rs: the board of a Position with by_type, by_color and piece_count;
--                   put_piece, remove_piece, move_piece, swap_piece
--   Board.Position  board/position.rs: StateInfo, Position and its reads
--   Board.Position.Checks  board/position.rs: attackers_to, slider_blockers, set_check_info
--   Board.Position.Moves   board/position.rs: what do_move and undo_move write to the board
--   Board.Position.State   board/position.rs: what do_move_recording writes to the state, by blocks
--   Board.Position.Setup   board/position.rs: set_state
--   Board.Position.Transition  board/position.rs: do_move_checked, undo_move, the null moves,
--                   set_repetition
--   Board.Position.Draws  board/position.rs: is_repetition, has_repeated
--   Board.Position.Threats  board/position.rs: threats_by, blockers_for_king, check_squares
--   Board.Position.See      board/position.rs: see_ge
--   Board.Position.GivesCheck  board/position.rs: gives_check, do_move, dtz_is_dtm
--   Board.Position.Cycles   board/position.rs: upcoming_repetition
--   Board.Position.Rights   board/position.rs: set_castling_right
--   Search.TtEntry  search/tt.rs: the packed words, relative_age, unpack_meta, pack_meta, decode
--   Search.Tt       search/tt.rs: TranspositionTable, resize, clear, new_search, probe
--   Search.TtStore  search/tt.rs: store, penalize, hashfull
--   Search.TtScore  search/tt.rs: value_to_tt, value_from_tt
--   Search.History  search/history.rs: apply_gravity and the tables' reads and updates
--   Search.MoveSort search/movepick.rs: ScoredMove, full_insertion_sort, partial_insertion_sort
--   Search.MovePicker  search/movepick.rs: MovePicker, MoveBuf, next_move with its stages,
--                   skip_quiet_moves; the scores of a move are in Search.MovePicker.Scores
--   Search.Score    search/score.rs: Score (Score::new is classify), to_uci
-- The modules below each of these prove its laws, and are named for what they prove. Examples files
-- apply the results to concrete boards, tables and scores.
--
-- Numbers: unsigned words are natural numbers with the wrap-around written out; a Value or another i32
-- is an integer, since the engine's scores and bonuses stay far from the ends of an i32; the casts to
-- and from i16 and u16 are written out. A panic (an index out of range, an empty set) is `none`.
-- Bounds: the iterator of a bitboard runs on 64 rounds of fuel, one for each square, and the result on
-- it shows that they are enough; a ray has at most seven squares; the repetition walk runs on as many
-- rounds as its end is plies back, which the result on it shows to be enough. The exchange runs on 65
-- rounds, since each takes a piece off one of 64 squares, and a call of the picker on six, since each
-- pass without a move ends a stage; the results on them show both to be enough. The insertion into the
-- cuckoo tables runs on any fuel. Every other loop is over a list or a fixed number of slots.
--
-- Not modelled: the atomic accesses of several threads to one transposition table (the table here is
-- read and written by one thread), the allocator (its answer is the parameter of resize), the win-rate
-- model in floating point (a parameter of classify), the reading and writing of FEN, the count of the
-- tree of moves (perft), the record of threats that a move leaves for the evaluation, the magic tables, the loop that fills the cuckoo tables, the search itself, the
-- evaluation, the tablebases, the shell and the build tasks. The debug assertions are not modelled.
pub mod Board
pub mod Prelude
pub mod Search
