-- ===== src/Lib.antt =====
-- Substrata: the Swift layer that exports functions and types of a program to JavaScript, and parts of
-- the C engine that it embeds, the target SubstrataQuickJS.
--
-- The parts, and the files that model them. The Swift layer, in Sources/Substrata:
--   Internals/Context.swift
--     Context: `JSContext`, its counters and tables of exports, `performThreadSafe`, `shutdown`.
--       Context/Exports: identifiers and entries. Context/Threads: the calls of several threads as a
--       step relation.
--   Internals/Conversion.swift, Utilities/Extensions.swift
--     Conversion: `toJSConvertible` and the `toJSValue` of each type.
--   Internals/Callbacks.swift
--     Callbacks: `typedCall`, `typedGetter`, `typedSetter`, `typedInstanceMethod`, which find in the
--       context what was exported, convert the arguments, call it and convert its result.
--       A closure takes the state of the program and gives back a new one. `magic_of` is what the engine
--       keeps of an identifier.
--   Types.swift, Internals/InternalTypes.swift
--     Instances: `typedConstruct`, the instance behind an object, `export(instance:className:as:)`.
--       Instances/Attached: what ties an object to an instance. Instances/Made: the three ways of
--       `typedConstruct`. Instances/Runs: constructions and method calls in turn. Instances/Statics: the
--       dictionaries of `JSExport`.
--   Engine.swift, DataBridge.swift
--     Engine: `isExported`, `export(name:function:)`, `export(type:className:)`, on a context and the
--       heap of the C engine. KeyPath: `value(for:)` and `setValue(_:for:)` of the engine and the bridge.
--       Engine/Limits: `setLimits` and `loadBundle`.
--   Internals/Conversion.swift, Utilities/Extensions.swift, Engine.swift, once more
--     References: the references to values of the engine that conversions, calls and properties take and
--       give back. References/Convert and References/Build: the two ways of the conversion.
--       References/Calls: `evaluate`, `JSFunction.call`, `JSClass`, `setValue`. References/Results and
--       References/Held: how many references a result holds.
-- The C engine, in Sources/SubstrataQuickJS:
--   cutils.c, include/cutils.h
--     Utf8: `utf8_encode_len`, `utf8_encode`, `utf8_decode`, `utf8_decode_len`. Utf8/Units: surrogates.
--       Utf8/Decoding: `utf8_scan`, `utf8_decode_buf8`, `utf8_decode_buf16`. Utf8/Encoding:
--       `utf8_encode_buf8`, `utf8_encode_buf16`. Utf8/Latin: the pair for Latin-1. Strings of the engine
--       are Latin-1 bytes or UTF-16 units, and these functions carry them to and from the UTF-8 of the
--       callers.
--     DynBuf: the growing buffer, `dbuf_realloc` to `dbuf_free`, on which printing stands.
--     Digits: `u32toa`, `u64toa`, `i32toa`, `i64toa`. Digits/Radix: their `_radix` variants.
--     Str: `js__pstrcpy`, `js__pstrcat`, `js__strstart`, `js__has_suffix`.
--     Sort: `rqsort`, `heapsortx`, `med3`. Sort/Exchange: the exchange functions. Sort/Heap,
--       Sort/Partition, Sort/Split and Sort/Runs follow the array through the parts of the sort.
--       The order by a key: Sort/Keys the comparison, Sort/Heaps and Sort/Ordered `heapsortx`,
--       Sort/Insertion the insertion sort, Sort/Parts and its children the partition, Sort/Blocks the
--       exchange of runs, Sort/Divide one split, Sort/Pending the stack, Sort/Sorted the whole.
--   quickjs.c
--     Collector: `gc_decref` and `gc_scan`, which find the cycles that `JS_RunGC` frees.
--   libunicode.c, include/libunicode.h
--     CharRange: sets of code points as interval lists, `cr_realloc` to `cr_invert`.
--     Unicode: `lre_case_conv`, `lre_canonicalize`. Unicode/Search: the search in the case table.
--       Unicode/Table: the compressed property tables. Unicode/Combining: `unicode_get_cc`, `sort_cc`.
--       Unicode/Names: `unicode_find_name`. Unicode/Overlap: `cr_sort_and_remove_overlap`, which calls
--       `rqsort` on the points of a range, with its loops in Unicode/Overlap/Joined and the whole in
--       Unicode/Overlap/Whole.
-- Prelude holds what the modules share: Boolean tests on numbers, lists as C arrays, bit masks.
--
-- The state. A block of memory is the list of its bytes, words or elements, and a pointer into it is an
-- index or the list of what lies from there on. A function returns the block with its stores made,
-- beside the result of the C function. Words are natural numbers with their wrap-around written out.
-- `Option` marks what C leaves undefined, an access outside of a block, and fuel that is spent.
--
-- In the Swift layer a method is a function of the state that it finds, and `none` is a trap of Swift.
--
-- Parameters. The calls of the C engine that exports make are a record of functions
-- (Engine.Quickjs), and what the engine does with reference counts is a hypothesis
-- (Engine.Counting.Counts), met by a small heap of functions. In the same way the calls on objects
-- are Instances.Objects, their laws Instances.Attached.Laws, and the script of an exported instance
-- Instances.Export.IsNew. Floating-point numbers, the engine's
-- `time_clip` of them, and the texts that Swift prints are a parameter (Conversion.Floats), and the
-- closures and classes of the program are any functions of their arguments and of its state. The
-- allocator is a parameter of DynBuf and of CharRange: its documented behaviour is a hypothesis
-- (DynBuf.Grow.IsRealloc), and an allocator that refuses is among the cases. The comparison is a
-- parameter of the sort, and the tables of libunicode-table.h are parameters of Unicode.
--
-- Fuel. A decoder has as much as there are bytes, and each round consumes one. A search in a table has
-- one more than its entries, of which each round drops one. `rqsort` has one round for each element,
-- since each split removes its pivot, and 52 splits in a row, since the depth ends at 50. The digit
-- loops have ten rounds for a word of 32 bits, and as many as the width in a base of at least two.
-- The loop of `gc_scan` has as many rounds as there are objects, since none comes to it twice.
--
-- Not modelled: `dbuf_printf`, clocks, threads and locks of cutils.c, which call the platform;
-- normalization and the property lists of libunicode.c beyond the above; the interpreter of
-- quickjs.c, libregexp.c, libbf.c, quickjs-libc.c.
-- Of the Swift layer: scripts and what they do, the console, the texts of values, `NSNumber`, `Float`
-- and `Decimal`.
pub mod Prelude
pub mod Utf8
pub mod DynBuf
pub mod CharRange
pub mod Digits
pub mod Str
pub mod Sort
pub mod Unicode
pub mod Context
pub mod Conversion
pub mod Callbacks
pub mod Instances
pub mod References
pub mod KeyPath
pub mod Engine
pub mod Collector
