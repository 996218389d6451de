-- ===== src/Lib.antt =====
-- reflgen: the serialization backends, the registry and the attribute scanner.
--
-- reflgen reflects C++ types at compile time and serializes values of them. A value goes through two
-- abstract classes, `reflgen::writer` (include/reflgen/serial/writer.h) and `reflgen::reader`
-- (include/reflgen/serial/reader.h): a producer calls write_*, begin_*, write_key and end_* in a
-- prescribed order, a consumer calls read_*, begin_*, next_* and end_*. Two formats implement them,
-- include/reflgen/binary and include/reflgen/json.
--
--   Common          shared names; Outcome has the results of calls and the monad of a stateful call,
--                   Bits the lemmas on bit operations, Tests the Boolean tests, Lists, Bytes, Order more.
--   Serial.Calls    the two abstract classes as records of calls.
--   Serial.Value    the data that goes through the interfaces; Serial.Contract the order of calls.
--   Serial.Utf      include/reflgen/serial/detail/utf.h; Encoding and Decoding are about one code point,
--                   Strings about whole strings.
--   Serial.Path     include/reflgen/serial/error.h: the path of an error; its child Pointer reads it.
--   Binary.Wire     include/reflgen/binary/format.h and include/reflgen/binary/detail/endian.h.
--   Binary.Writer   include/reflgen/binary/writer.h, each method under its name.
--   Binary.Reader   include/reflgen/binary/reader.h, each method under its name.
--   Binary.Encoding the format as a function of a value; Varint and Scalars are about numbers, Writing,
--                   Reading, Skipping and RoundTrip about values, Safety, ScalarSkip and Skip about any
--                   input.
--   Json.Base64     include/reflgen/json/base64.h, and its child RoundTrip.
--   Json.Writer     include/reflgen/json/writer.h; Json.Decimal has the integers of <charconv>.
--   Json.Reader     include/reflgen/json/reader.h: Input has its state and its helpers, Numbers
--                   `scan_number`, Strings `parse_string` and `append_escape`, Reader the calls. Safety,
--                   Tokens, Texts, ScalarSkip and Skip are about any input.
--   Json.Encoding   the text of a value; WriteCalls and Writing are about the writer. Steps, Scanning,
--                   Quoting, FloatText, BytesText, ReadCalls, Containers and ReadTexts are about the reader
--                   before a part of that text, Reading about it before a value, RoundTrip about a document.
--   Serial.Scalars  include/reflgen/serial/detail/scalar.h; Bounds is about integers, Characters about
--                   characters. Serial.Enums has the enumerations of that file and the tables of
--                   include/reflgen/core/enum.h, Tables what they are. Binary.ScalarTrip writes and reads them.
--   Serial.Cycle    include/reflgen/serial/detail/cycle.h and `write_pointer` of
--                   include/reflgen/serial/detail/pointer.h; Termination and Detection are about graphs.
--   Runtime.Registry    include/reflgen/runtime/registry.h; Reachable is about any sequence of calls.
--   Generator.AttributeScan     generator/src/attribute_scan.cpp: the attribute groups in a list of tokens,
--                   with Syntax, Parentheses and Groups about one group, Termination, Places, Pieces and
--                   Scans about all of them; Text has the tests on a text, Words, Places and Lists are
--                   about them; Declarations picks the groups of one declaration and the text of
--                   arguments, Runs and Order are about the groups.
--   Examples        tests.
--
-- State. A writer is its output so far with its stack of frames, the top first. A reader is the input
-- from `position_` on, with the number of bytes before it (binary) or those bytes themselves (JSON).
-- A method is a function from a state to an `Outcome`: a value and a state, an error with its message
-- and its place, a `fault` (a read outside the input, or an empty stack that is popped), or no fuel
-- left. What an object is left with when a method throws is not kept: the sources say that a reader is
-- not used again. Bytes, characters and code points are numbers; std::int64_t and double are their
-- 64-bit patterns. A call of a library that the sources only use is a parameter: the conversions of
-- integers to double (`Casts`), the parsing and the printing of floating-point numbers (`Floats`,
-- `Floating`). The growth of a std::vector and of a std::string never fails, and the
-- number of blanks that a line is indented by is not bounded by std::size_t. A JSON reader that would step
-- over the end of its input stays there: its methods step over what they have seen, or fail next.
--
-- Bounds. `take_varint` runs ten rounds, as `shift < 64` allows. `skip_value` and its loops take fuel;
-- two units for each byte that is left, and one more, are enough, in both formats. The loops over a
-- text take as many rounds as the text has bytes; `parse_string` takes one more. A graph of n objects is
-- written within n + 1 objects inside each other. `scan_groups` takes as many rounds as there are tokens,
-- `parse_attributes` and `declares_from` one more than what is left.
--
-- The scalars, the registry, the guard against cycles and the attribute scanner do not depend on a format:
-- the scalars take the calls of any implementation of the interfaces, the guard any way to write an
-- object, with the list of a thread as its state, which outlives a throw. The registry is a sequence of
-- calls, as its mutex makes them.
--
-- Not modelled: the text of an error in what(); of include/reflgen/serial the layer that drives the
-- interfaces for containers, objects, pointers to polymorphic objects and user types, and
-- `read_floating`; the compile-time descriptors of include/reflgen/core but the tables of enumerations, and
-- the run-time descriptors of include/reflgen/runtime but the registry; of the generator all but the
-- attribute scanner; the editor extension (vs). Files, threads and the C++ exceptions themselves are outside the model.
pub mod Common
pub mod Serial
pub mod Binary
pub mod Json
pub mod Runtime
pub mod Generator
pub mod Examples
