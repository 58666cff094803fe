-- ===== src/Lib.antt =====
-- jzip: a Z-machine interpreter (a fork of Jzip 2.1) and its checker of saved games, as one library.
--
-- The program loads a story file, fetches and decodes instructions from it (interpre.c), and runs an
-- opcode for each: operands and variables (operand.c, variable.c), arithmetic and tests (math.c),
-- routine calls (control.c), the object tree, properties and tables (object.c, property.c), story text
-- and the player's words (text.c, input.c). All of them work on the globals of extern.c: the data area
-- `datap`, the evaluation stack with `sp` and `fp`, and the program counter. The rest of the story file comes through a cache of pages (memory.c). Saved games are
-- Quetzal files, written and read by quetzal.c and checked by ckifzs.c.
--
-- How the parts are modelled:
--
--   Prelude      names shared by all modules; Prelude/Int has `ZINT16` values and C's division,
--                Prelude/Bits the laws of `&` and `|`
--   Machine      the globals as a record (extern.c, ztypes.h), runs with the outcomes `ok`, `fatal`
--                (the program ends with a message), `fault` (what C leaves undefined) and `out_of_fuel`,
--                and the accesses to the data area, the stack and the code (ztypes.h, memory.c)
--   Operand      operand.c and variable.c but for the tests
--   Return       `z_ret` of control.c
--   Branch       `conditional_jump` and `z_piracy` of operand.c, `z_jump` and `z_check_arg_count` of
--                control.c
--   Control      `z_call`, `z_catch` and `z_throw` of control.c
--   Math         math.c, and the two testing opcodes of variable.c
--   Objects      object.c: the tree, with the walk along the siblings, and the attributes; Links and
--                Chain see the table as links, Unlink, Remove and Tree are about `z_remove_obj`,
--                Insert, Move and Between about `z_insert_obj`, Attributes and Flags about the
--                attributes
--   Property     the first half of property.c; Layout has the property list of the story file and the
--                scan, Lookup, Values and Next the opcodes on it
--   Table        the second half of property.c: copying and scanning tables, loads and stores
--   Quetzal      quetzal.c: the compressed memory here, Stacks has the reading of the stack frames, Save
--                `save_quetzal` and Restore `restore_quetzal`; Words, Frames, Reading, CallStack, StackChunk,
--                StackReading, Memory, Chunks, File and Sequence are about the parts of a file that is
--                written and read, RoundTrip about the whole, Safety about the frames of
--                any file, Overflow about a dummy frame that is too large
--   Checker      ckifzs.c: `check_stacks` and `main` on the bytes of a file; Accepts and Saved are about files
--                that `save_quetzal` writes, Ends about any file
--   Undo         the undo of fileio.c, in memory
--   Verify       `z_verify` of fileio.c, which Sum is about
--   Text         `encode_text` of text.c, and `decode_text` in Text/Decode; Encode and Room are about the
--                codes and words of an encoded text, Run about runs of the decoder, RoundTrip about both
--   Print        the opcodes of text.c that print text from memory, and `z_encode`; Encoded is about what
--                `z_encode` stores
--   Input        `find_word` of input.c: the dictionary and its chop search
--   Tokenise     the rest of input.c on a line that is typed: `tokenise_line`, `next_token`, `z_tokenise`
--   PageCache    the page cache of memory.c: the chain, the translation buffers and the reads; Loading
--                has `load_cache` and `calc_data_pages`, Refine the invariant of the cache, First the cache while
--                it has one entry, Trace reads in a row
--   Interpreter  `interpret` of interpre.c: the loop; Loading has the operands, Switch the switches over
--                the opcodes, Routines the opcodes that are an argument
--   Examples     the theorems at concrete inputs, in Tree, Tables, Saves, Restoring, Words, Paging and Printing by
--                module
--
-- Each module has the operations; its children have what is proved of them. An operation carries the
-- name of its C function. A `zword_t` is a number below 2^16 and wraps by `% 0x10000`; a `ZINT16` is the
-- integer that the word stands for. An opcode is a function from the machine before it to a run, and
-- its stores and branches are made through `store_operand` and `conditional_jump`, as in the source.
-- The instruction loop composes them; the opcodes that print, read input, draw, save or restore are an
-- argument of it, a function from each name, and so is the random number generator. `tokenise_line` calls
-- `find_word` for each token, which calls `encode_text`. The operations see the page cache as the story
-- file that it caches.
--
-- Bounds and fuel. The stack has 1024 cells and the data area `data_size`; an access outside either is
-- a `fault`. The loops of `z_call` and `z_throw` make as many rounds as their counters say, and recur on
-- those counters. The walk of `z_remove_obj` has fuel for 65536 objects, as many as a word numbers; a
-- chain of siblings that ends at 0 is shorter. The scan of a property list has fuel for 65536 properties:
-- it knows only a 16-bit address, so after as many rounds one has come twice. The chop search has one
-- more than the chop as fuel, which is halved each round; the loop over the tokens of a line has one more
-- than its characters, of which each token takes one. `decode_text` has fuel for the words of a string
-- and of the synonyms in it, and the instruction loop for its instructions, nested runs included: a
-- string and a program need not end. The loop over the frames of a saved game has one more than the bytes
-- of the file, of which each frame takes eight, and so has that of `check_stacks` than the chunk; the loops over
-- the chunks have one more than the length that is left, of which each chunk takes eight. The array of
-- frames in `save_quetzal` has room for 256, and `find_frames` has that as fuel; one more is a `fault`.
--
-- Not modelled: the start and the restart of a story (`configure` of jzip.c, `z_restart` of control.c), which
-- set the header and the screen; output, the screen, the keyboard, script files and the command line, which
-- are calls of the C library or of the terminal; a strict error's message is kept as its number, and what `decode_text`
-- writes is kept as a list. A saved game is the list of the file's bytes, and writing it does not fail. What
-- a saved game is shown as, and the dumps of the checker, are left out. What `malloc` gives the page
-- cache is an argument, a number of entries.
pub mod Prelude
pub mod Machine
pub mod Operand
pub mod Return
pub mod Branch
pub mod Control
pub mod Math
pub mod Objects
pub mod Property
pub mod Table
pub mod Quetzal
pub mod Text
pub mod Input
pub mod Tokenise
pub mod Print
pub mod PageCache
pub mod Checker
pub mod Undo
pub mod Verify
pub mod Interpreter
pub mod Examples
