-- ===== src/Lib.antt =====
-- Verification library of watchmaker, a program that fakes the time of a running Linux process: it
-- traces the process, maps replacement functions into its memory, and redirects the functions of
-- the vDSO to them.
--
-- The parts and their files:
-- * Prelude passes on the library's names, and has native lists, integers, bits, the outcomes of Go
--   calls (Outcome: a value, an error, a panic, or fuel that is used up), calls that change a state
--   (State), and the rules for what holds of a call that succeeds (Yields) or that ends (Finishes).
--   Go has the parts of Go's strings and strconv that the program calls, and the 64-bit integers.
--   Errors has one constructor for each error that the program makes or passes on.
-- * ClockIds is encode_clk_ids.go, `EncodeClkIds`.
-- * Maps is maps_reader.go, `ReadMaps`, on the content of the file.
-- * Kernel is the operating system: its calls are the fields of a record that every definition takes
--   as a parameter. Kernel/Laws states the documented behaviour that the theorems rely on, seen
--   through the memory and the registers of the traced process. Kernel/Toy is a kernel that meets it.
--   Elf is what the program reads of an ELF file; the reader is a parameter as well.
-- * Ptrace is ptrace_linux.go and its files for amd64 and arm64, the methods of `TracedProgram` and
--   `Trace`. The state is the world and the program; a method is a function from it to an outcome and
--   the next state. The world that is left behind an error or a panic is part of the result.
-- * FakeImage is fake_image_linux.go and its two files: `InjectFakeImage`, `FindInjectedImage`,
--   `TryReWriteFakeImage`, and `AttachToProcess` and `Recover`, which trace and detach.
-- * Asset is asset_linux.go and its two files: `LoadFakeImageFromEmbedFs` and `AssetLD`.
-- * Skew is time_skew_linux.go: `Config`, `GetSkew`, `Fork`, `Inject` and `Recover`.
-- * Offset is date_offset.go, `CalculateOffset`. The date parser is an argument; Offset/Dated and
--   Offset/Numbers give it the one of DateParse.
-- * Children is cmd/watchmaker.go: `getChildProcesses` and `main`, which puts the parts together: the
--   offset and the mask make a configuration, the skew loads three images, each image attaches to
--   the process, and the same is done for each of the descendants. Children/Stat is what
--   `fmt.Fscanf` does with the format of `processStat`.
-- * DateParse is date_parse.go. Fields and Time have the record `parser`, its options and its methods;
--   States the states of the date and of the time; Date one function for each case of the date loop
--   of `parseTime`, Clock one for each case of the time loop, and in both Turn is the `switch` and End
--   the `switch` behind the loops; Loop is the shape of the loops; Whole is `parseTime` with its calls
--   of itself and its deferred function; Exported has the functions of the package. A layout is the
--   list of its bytes; positions and lengths are integers; `time.Parse` is a parameter, and so is what
--   the tables of Unicode say of characters that are not ASCII. Samples has layouts that are found.
--   `set` writes without index checks; `set_or_panic` is the same method with those of Go.
--
-- An architecture is an argument (Arch), where the source has one file for each. A deferred function
-- is a call behind the outcome of the body, whichever it is. A map of variables is a list, in the
-- order in which Go goes through it. The goroutines of `getChildProcesses` add to a map under a mutex,
-- so they are a sequence, in the order of the list of names.
--
-- Fuel: the loop of `PtraceWriteSlice` has the length of the buffer, of which each round writes eight
-- bytes; the loop over the relocations has the length of the section, of which each round reads 24
-- bytes; the loop of `Trace` has the kernel's bound of thread ids, since each listing but the last
-- shows a thread that is new; the recursion of `collectAllChildren` has one more than the number of
-- processes, which no chain of children exceeds; the date loop has two turns more than the text has
-- bytes, since only a suffix is read twice, and the time loop one more; the calls of `parseTime` in
-- itself have four for each byte of the text, since a call cuts something out or makes a period of a
-- comma, and the retry is made once.
--
-- Not modelled: `ts` and `ds` of the date parser, which print it; the C functions of fakeclock/, which
-- run in the traced process; logging, the locking of threads and of the skew's mutex; the texts of
-- errors but those of `time.Parse`; example/ and test/.
pub mod Prelude
pub mod Go
pub mod Errors
pub mod ClockIds
pub mod Maps
pub mod Kernel
pub mod Elf
pub mod Ptrace
pub mod FakeImage
pub mod Asset
pub mod Skew
pub mod Offset
pub mod Children
pub mod DateParse
