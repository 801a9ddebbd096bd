-- ===== src/Lib.antt =====
-- A model of bumblebee, which builds eBPF programs, loads them, and shows their maps and ring buffers
-- as metrics and logs.
--
-- A program in C (examples/*) runs in the kernel. Its probes share hash maps and ring buffers with
-- the loader in Go (pkg/loader), which watches those whose section name asks for it, decodes their
-- bytes by the C types of the values (pkg/decoder), and passes them on as metrics (pkg/stats) or rows
-- on the screen (pkg/tui). builder/vmlinux.h and builder/solo_types.h give the programs their types.
--
-- The files:
--   Common     the names, list functions and machine words that the others share; Dict is a Go map
--              by names
--   CTypes     C types with the x86-64 layout: size, alignment, the place of a member access
--   Kernel     builder/vmlinux.h: the structures that the probes read, and all that lies inside them
--   SoloTypes  builder/solo_types.h
--   Bpf        what the programs use of the kernel, as parameters: hash maps, ring buffers, helpers
--   ActiveConn examples/activeconn/activeconn.c
--   TcpConnect examples/tcpconnect/tcpconnect.c
--   TcpConnLat examples/tcpconnlat/tcpconnlat.c
--   OpenSnoop  examples/opensnoop/opensnoop.c and opensnoop.h
--   ExitSnoop  examples/exitsnoop/exitsnoop.c and exitsnoop.h
--   Capable    examples/capable/capable.c
--   OomKill    examples/oomkill/oomkill.c
--   KprobeTcp  examples/kprobetcp/handler.c
--   Decoder    pkg/decoder/decoder.go: Types and Decode have its types and functions, Format says
--              which bytes a value is, and RoundTrip, Typedef, Struct, AnyBytes and
--              Truncated have the proofs
--   SetCounter pkg/stats/stats.go: setCounter
--   Loader     pkg/loader/loader.go and watcher.go: Types has the specification of maps and what is
--              kept of it, Parse the function of that name, Watch `WatchMaps` and the two loops, Attach
--              `Load`; Laws, Dispatch, Streams, Ticks, Releases and Success have the proofs,
--              Samples and Numbers are for the tests
--   Tui        pkg/tui: Filter filter.go, Table the tables and `watch` of tui.go, Screen the
--              announcement of maps, the updates that it queues, and the keys, Display `SendEntry` and a table behind the entries
--              of one loop, Pipe the goroutines of `Run` with the channel
--   EndToEnd   examples/tcpconnect/tcpconnect.c together with pkg/decoder and pkg/loader
--   Images     pkg/spec: spec.go's `Push` and `Pull`, and utils.go's `TryFromLocal`; Oras is what they use
--              of oras-go, Holds says which image a store has, Packaged and Laws have the proofs, and
--              Sample is a library for the tests
--   Cli        pkg/cli/internal/commands: Registry has pull, push and tag, Show describe and list, Build
--              build with Paths (the output file) and Platform (uname), Run run, Init init with
--              Templates and Kinds; Options is internal/options; Publish, Describe, Skeletons,
--              Outcomes and the Laws have the proofs
--   Samples    a small kernel for the tests
-- The file of a program holds its types, map declarations and probes; its child Laws (with Balance
-- and Entries) what is proved of them, and Tests its runs and the theorems at concrete data.
--
-- The state of a program is the contents of its maps and ring buffers, threaded through each probe:
-- activeconn.c's `enter_tcp_connect`, `record` (here `record_op`) and so on are functions from state
-- to state. The probes of one program in an arbitrary order, by arbitrary threads, are a list of
-- calls, run one after the other: each probe is taken as a whole, which is what the kernel does on
-- one CPU; races between CPUs inside a probe are not modelled. What every probe returns is 0, and
-- `bpf_printk` only logs: both are left out.
--
-- Integers are natural numbers below 2 ^ w, for signed types too (the bit pattern), with the
-- wrap-around written out. Memory is read through `probe_read_kernel`, a parameter; `BPF_CORE_READ`
-- reads the bytes at the place that the layout of builder/vmlinux.h gives to the member, lowest byte
-- first, so the model is of a little-endian kernel with those types, where relocation changes nothing.
-- The sizes and places in Kernel/Tests are those that a C compiler computes for that header.
--
-- The kernel's maps, ring buffers and helpers are not in the repository. They are the records HashMap,
-- RingBuf and Context, with the laws IsLawful that bpf-helpers(7) documents: a stored value is found,
-- a refused update changes nothing, a reservation is submitted in order and its memory is not cleared.
-- Bpf/Examples has bounded maps and buffers that meet them. No loop needs fuel: the probes have none,
-- and a run is by recursion on the list of calls.
--
-- The decoder's fields `raw` and `offset` are an argument and a state of `decode_btf_binary` and what
-- it calls; its errors and its panics are the outcomes `err` and `panic`. The types of the library
-- cilium/ebpf are data, with what the switches tell apart. Floats are bit patterns. The byte order,
-- which the build selects, is an argument. The bytes of `raw` are those up to its capacity, since the
-- bounds of a slice are checked against that and the decoder does not look at the length; a sample of
-- a ring buffer has its bytes and the spare ones behind them.
--
-- A `setCounter` adds the differences of the values that it is given to a counter of the library
-- prometheus, which is a parameter with the law IsLawful; a panic is none. The calls of the increment
-- counter and of the gauge, which pass on to that library, are among the loops' actions.
--
-- The loops of the loader are run over a list of all that they meet: what the ring buffer's reader
-- gives, or the ticks with the entries that the iteration finds. They give the list of the calls that
-- they make of their instrument and of the watcher, and where they end up, which can be a panic or an
-- exit of the whole program. The loop over a map or a list is recursion on it, so no fuel is needed.
-- A Go map is a list of pairs in the order in which it is ranged over. `fmt.Sprint`, regular
-- expressions and the hash of the library hashstructure are parameters.
--
-- `Load` gives the list of what it acquires, releases and does to files, and how it ends; the calls
-- that it defers are a stack. The kernel, the files and the context are the parameter System, where
-- the context is asked at the entry and before each program.
--
-- The screen's variables are one record, with the updates that are queued for the goroutine that draws.
-- A table of the library tview is the texts of its cells. Of `mapMutex` the model has the number of
-- read locks that are held: where it is not 0, `Lock` waits, and the operation gives none. The
-- goroutines of `Run` are steps on a record with the maps that are still to be announced, in the order
-- in which their loops get the lock, the loops that wait for their update to be drawn, the entries that
-- each loop has still to send, the keys that will be pressed, and the channel `Entries`, which holds
-- 20. A key is never made to wait: in the program its `RLock` also waits where a loop already waits in
-- `Lock`, so the model has all its runs and more.
--
-- The libraries oras-go, go-digest and encoding/json are the parameter Library, whose targets are
-- stores in memory, directories and registries, with the law IsLawful: what a copy that succeeds has
-- copied is found under its name, with its digests, and other names keep what they had; a digest
-- tells texts apart. An image is what the root of a name, its manifest and its two layers say, and
-- Holds that a target has one. World is the machine on which a command runs: the store that a path or
-- a registry opens to, as it is at the call. A command gives how it ends and the store that it wrote
-- to. All errors of a library are one value. `build` gives the files, the store and the ending; the
-- files, the compiler and uname are the parameter Tools, the ELF reader and the memory limit the
-- parameter Machine, and the questions of `init` the parameter Terminal.
--
-- Not modelled: the rest of the metrics (pkg/stats), which calls a library; reading the ELF file and
-- opening readers, for which the library cilium/ebpf is called; the layout and the drawing of the
-- screen and of the tables that describe and list show; maps that two descriptors may share, which tag
-- avoids by a copy; the flags of the command line; the prompts of
-- login, and the container builds of package and of builder/, which are input and output through
-- libraries.
pub mod Common
pub mod CTypes
pub mod Kernel
pub mod Bpf
pub mod Samples
pub mod SoloTypes
pub mod ActiveConn
pub mod TcpConnect
pub mod TcpConnLat
pub mod OpenSnoop
pub mod ExitSnoop
pub mod Capable
pub mod OomKill
pub mod KprobeTcp
pub mod Decoder
pub mod Loader
pub mod SetCounter
pub mod Tui
pub mod Images
pub mod Cli
pub mod EndToEnd
