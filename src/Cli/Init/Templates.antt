-- ===== src/Cli/Init/Templates.antt =====
-- pkg/cli/internal/commands/initialize/templates.go: the texts of the skeletons. A template is the
-- function that `Execute` is of it.
use Prim.Native.String.{◌++◌ as ◌<>◌}
use bumblebee.Common.{String, List, [], ◌∷◌}

-- A raw string by its lines.
unfoldable pub lines : List String → String
lines [] = ""
lines (s ∷ []) = s
lines (s ∷ t ∷ ss) = s <> ("\n" <> lines (t ∷ ss))

unfoldable pub open_at_struct : String
unfolding lines
open_at_struct = lines (
    "// This struct represents the data we will gather from the tracepoint to send to our ring buffer map"
    ∷ "// The 'bee' runner will watch for entries to our ring buffer and print them out for us"
    ∷ "struct event {" ∷ "\t// In this example, we have a single field, the filename being opened"
    ∷ "\tchar fname[255];" ∷ "};" ∷ [])

unfoldable pub open_at_map : String
unfolding lines
open_at_map = lines (
    "struct {" ∷ "\t__uint(type, BPF_MAP_TYPE_RINGBUF);" ∷ "\t__uint(max_entries, 1 << 24);"
    ∷ "\t// Define the type of struct that will be submitted to the ringbuf"
    ∷ "\t// This allows the bee runner to dynamically read and output the data from the ringbuf"
    ∷ "\t__type(value, struct event);" ∷ "} events SEC(\".maps.print\");" ∷ [])

unfoldable pub open_at_body : String
unfolding lines
open_at_body = lines (
    "// Attach our bpf program to the tracepoint for the openat() syscall"
    ∷ "SEC(\"tracepoint/syscalls/sys_enter_openat\")"
    ∷ "int tracepoint__syscalls__sys_enter_openat(struct trace_event_raw_sys_enter* ctx)" ∷ "{"
    ∷ "\t// initialize the event struct which we will send the the ring buffer"
    ∷ "\tstruct event event = {};" ∷ ""
    ∷ "\t// use a bpf helper function to read a string containing the filename "
    ∷ "\t// the filename comes from the tracepoint we are attaching to"
    ∷ "\tbpf_probe_read_user_str(&event.fname, sizeof(event.fname), ctx->args[1]);" ∷ ""
    ∷ "\t// create a pointer which will be used to access memory in the ring buffer"
    ∷ "\tstruct event *ring_val;" ∷ ""
    ∷ "\t// use another bpf helper to reserve memory for our event in the ring buffer"
    ∷ "\t// our pointer will now point to the correct location we should write our event to"
    ∷ "\tring_val = bpf_ringbuf_reserve(&events, sizeof(struct event), 0);" ∷ "\tif (!ring_val) {"
    ∷ "\t\treturn 0;" ∷ "\t}" ∷ "\t" ∷ "\t// copy our event into the ring buffer"
    ∷ "\tmemcpy(ring_val, &event, sizeof(struct event));" ∷ ""
    ∷ "\t// submit the event to the ring buffer" ∷ "\tbpf_ringbuf_submit(ring_val, 0);" ∷ ""
    ∷ "\treturn 0;" ∷ "}" ∷ [])

unfoldable pub ringbuf_map_tmpl : String → String
unfolding lines
ringbuf_map_tmpl output_type = lines (
    "struct {"
    ∷ "\t__uint(max_entries, 1 << 24);"
    ∷ "\t__uint(type, BPF_MAP_TYPE_RINGBUF);"
    ∷ "\t__type(value, struct event_t);"
    ∷ ("} events SEC(\".maps" <> (output_type <> "\");"))
    ∷ [])

unfoldable pub ringbuf_struct : String
unfolding lines
ringbuf_struct = lines (
    "struct event_t {" ∷ "\t// 2. Add ringbuf struct data here." ∷ "} __attribute__((packed));"
    ∷ [])

unfoldable pub ringbuf_body : String
unfolding lines
ringbuf_body = lines (
    "SEC(\"kprobe/tcp_v4_connect\")" ∷ "int BPF_KPROBE(tcp_v4_connect, struct sock *sk)" ∷ "{"
    ∷ "\t// Init event pointer" ∷ "\tstruct event_t *event;" ∷ ""
    ∷ "\t// Reserve a spot in the ringbuffer for our event"
    ∷ "\tevent = bpf_ringbuf_reserve(&events, sizeof(struct event_t), 0);" ∷ "\tif (!event) {"
    ∷ "\t\treturn 0;" ∷ "\t}" ∷ "" ∷ "\t// 3. set data for our event," ∷ "\t// For example:"
    ∷ "\t// event->pid = bpf_get_current_pid_tgid();" ∷ "" ∷ "\tbpf_ringbuf_submit(event, 0);"
    ∷ "\t" ∷ "\treturn 0;" ∷ "}" ∷ [])

unfoldable pub hash_map_tmpl : String → String
unfolding lines
hash_map_tmpl output_type = lines (
    "struct {"
    ∷ "\t__uint(max_entries, 1 << 24);"
    ∷ "\t__uint(type, BPF_MAP_TYPE_HASH);"
    ∷ "\t__type(key, struct dimensions_t);"
    ∷ "\t__type(value, u64);"
    ∷ ("} values SEC(\".maps" <> (output_type <> "\");"))
    ∷ [])

unfoldable pub hash_key_struct : String
unfolding lines
hash_key_struct = lines (
    "struct dimensions_t {"
    ∷ "\t// 2. Add dimensions to your value. This struct will be used as the key in the hash map of your data."
    ∷ "\t// These will be treated as labels on your metrics."
    ∷ "\t// In this example we will have single field which contains the PID of the process"
    ∷ "\tu32 pid;" ∷ "} __attribute__((packed));" ∷ [])

unfoldable pub hash_map_body : String
unfolding lines
hash_map_body = lines (
    "SEC(\"kprobe/tcp_v4_connect\")" ∷ "int BPF_KPROBE(tcp_v4_connect, struct sock *sk)" ∷ "{"
    ∷ "\t// initialize our struct which will be the key in the hash map"
    ∷ "\tstruct dimensions_t key;"
    ∷ "\t// initialize variable used to track PID of process calling tcp_v4_connect" ∷ "\tu32 pid;"
    ∷ "\t// define variable used to track the count of function calls, and a pointer to it for plumbing"
    ∷ "\tu64 counter;" ∷ "\tu64 *counterp;" ∷ ""
    ∷ "\t// get the pid for the current process which has entered the tcp_v4_connect function"
    ∷ "\tpid = bpf_get_current_pid_tgid();" ∷ "\tkey.pid = pid;" ∷ ""
    ∷ "\t// check if we have an existing value for this key"
    ∷ "\tcounterp = bpf_map_lookup_elem(&values, &key);" ∷ "\tif (!counterp) {"
    ∷ "\t\t// debug log to help see how the program works"
    ∷ "\t\tbpf_printk(\"no entry found for pid: %u}\", key.pid);"
    ∷ "\t\t// no entry found, so this is the first occurrence, set value to 1" ∷ "\t\tcounter = 1;"
    ∷ "\t}" ∷ "\telse {"
    ∷ "\t\tbpf_printk(\"found existing value '%llu' for pid: %u\", *counterp, key.pid);"
    ∷ "\t\t// we found an entry, so let's increment the existing value for this PID"
    ∷ "\t\tcounter = *counterp + 1;" ∷ "\t}"
    ∷ "\t// update our map with the new value of the counter"
    ∷ "\tbpf_map_update_elem(&values, &key, &counter, 0);" ∷ "\t" ∷ "\t" ∷ "\treturn 0;" ∷ "}" ∷ [])

unfoldable pub file_template : (struct_data rendered_map function_body : String) → String
unfolding lines
file_template struct_data rendered_map function_body = lines (
    "#include \"vmlinux.h\"" ∷ "#include \"bpf/bpf_helpers.h\"" ∷ "#include \"bpf/bpf_core_read.h\""
    ∷ "#include \"bpf/bpf_tracing.h\"" ∷ "#include \"solo_types.h\"" ∷ ""
    ∷ "// 1. Change the license if necessary "
    ∷ "char __license[] SEC(\"license\") = \"Dual MIT/GPL\";" ∷ "" ∷ struct_data ∷ ""
    ∷ "// This is the definition for the global map which both our"
    ∷ "// bpf program and user space program can access."
    ∷ "// More info and map types can be found here: https://www.man7.org/linux/man-pages/man2/bpf.2.html"
    ∷ rendered_map ∷ "" ∷ function_body ∷ "" ∷ [])
