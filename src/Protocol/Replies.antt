-- ===== src/Protocol/Replies.antt =====
-- The texts that plugin/protocol.c answers with, before `snprintf` cuts them to the buffer.
use qemu_mip.Hypercall.{State}
use qemu_mip.Mem.{Counters}
use qemu_mip.Prelude.{ℕ, Bool, Bytes, codes, ◌++◌, ◌==◌, if◌then◌else◌}
use qemu_mip.Protocol.Print.{format, format_bool}
use qemu_mip.Queue.{mem_read_max}

-- `{"ok":false,"error":"…"}`
unfoldable pub error_reply : Bytes → Bytes
error_reply message = codes "{\"ok\":false,\"error\":\"" ++ message ++ codes "\"}"

unfoldable pub hw_code_name : ℕ → Bytes
hw_code_name code =
    if code == 0
    then codes "OK"
    else if code == 1
    then codes "ERROR"
    else if code == 2
    then codes "DEVICE_ERROR"
    else if code == 3
    then codes "ACCESS_DENIED"
    else if code == 4
    then codes "INVALID_ADDRESS"
    else if code == 5
    then codes "INVALID_ADDRESS_SPACE"
    else codes "UNKNOWN"

unfoldable pub hw_failed_reply : ℕ → Bytes
hw_failed_reply code =
    codes "{\"ok\":false,\"error\":\"hwaddr_read_failed\",\"result\":{\"code\":\""
    ++ (hw_code_name code ++ (codes "\",\"code_num\":" ++ (format code ++ codes "}}")))

unfoldable pub range_error : Bytes
range_error = codes "len out of range (1.." ++ (format mem_read_max ++ codes ")")

-- `"name":"%s","proto":"%d.%d"`
unfoldable pub name_and_proto : Bytes
name_and_proto =
    codes "\"name\":\"qemu-connect\",\"proto\":\""
    ++ (format 0 ++ (codes "." ++ (format 4 ++ codes "\"")))

unfoldable pub ping_reply : Bytes
ping_reply = codes "{\"ok\":true,\"result\":{\"pong\":true," ++ (name_and_proto ++ codes "}}")

-- `"mem_cb_fired":%llu,"mem_cb_vga_hit":%llu`
unfoldable pub mem_cb_fields : Counters → Bytes
mem_cb_fields c =
    codes "\"mem_cb_fired\":"
    ++ (format c.mem_cb_fired ++ (codes ",\"mem_cb_vga_hit\":" ++ format c.mem_cb_vga_hit))

unfoldable pub version_reply : Counters → Bool → ℕ → Bytes
version_reply c refresh timeout_ms =
    codes "{\"ok\":true,\"result\":{"
    ++ (name_and_proto
        ++ (codes ","
            ++ (mem_cb_fields c
                ++ (codes ",\"vga_refresh\":"
                    ++ (format_bool refresh
                        ++ (codes ",\"queue_timeout_ms\":"
                            ++ (format timeout_ms ++ codes "}}")))))))

-- `"discon":{…}`
unfoldable pub discon_fields : Counters → Bytes
discon_fields c =
    codes "\"discon\":{\"exception\":"
    ++ (format c.discon_exc
        ++ (codes ",\"interrupt\":"
            ++ (format c.discon_irq
                ++ (codes ",\"hostcall\":"
                    ++ (format c.discon_host
                        ++ (codes ",\"total\":" ++ (format c.discon_total ++ codes "}")))))))

-- `"agent":{…}`
unfoldable pub agent_fields : State → Bytes
agent_fields st =
    codes "\"agent\":{\"count\":"
    ++ (format st.count
        ++ (codes ",\"last_cmd\":"
            ++ (format st.last_cmd
                ++ (codes ",\"last_status\":"
                    ++ (format st.last_status
                        ++ (codes ",\"last_name\":\""
                            ++ (st.last_name
                                ++ (codes "\",\"pending_event\":"
                                    ++ (format_bool st.have_event ++ codes "}")))))))))

-- the five flags and the counters of `status`
unfoldable pub status_reply : Bool → Bool → Bool → Bool → ℕ → Counters → State → Bytes
status_reply socket_thread vga refresh hypercall writes c st =
    codes "{\"ok\":true,\"result\":{"
    ++ (name_and_proto
        ++ (codes ",\"socket_thread\":"
            ++ (format_bool socket_thread
                ++ (codes ",\"vga\":"
                    ++ (format_bool vga
                        ++ (codes ",\"vga_refresh\":"
                            ++ (format_bool refresh
                                ++ (codes ",\"hypercall\":"
                                    ++ (format_bool hypercall
                                        ++ (codes ",\"vga_writes\":"
                                            ++ (format writes
                                                ++ (codes ","
                                                    ++ (mem_cb_fields c
                                                        ++ (codes ","
                                                            ++ (discon_fields c
                                                            ++ (codes ","
                                                            ++ (agent_fields st
                                                            ++ codes "}}")))))))))))))))))

unfoldable pub no_event_reply : Bytes
no_event_reply = codes "{\"ok\":true,\"result\":{\"event\":null}}"

unfoldable pub event_reply : State → Bytes
event_reply st =
    codes "{\"ok\":true,\"result\":{\"event\":{\"name\":\""
    ++ (st.last_name
        ++ (codes "\",\"cmd\":"
            ++ (format st.last_cmd
                ++ (codes ",\"status\":"
                    ++ (format st.last_status
                        ++ (codes ",\"count\":" ++ (format st.count ++ codes "}}}")))))))

-- what stands before the text in the answer to `get_console`
unfoldable pub console_head : ℕ → ℕ → Bytes → Counters → Bytes
console_head writes text_len source c =
    codes "{\"ok\":true,\"result\":{\"cols\":80,\"rows\":25,\"writes\":"
    ++ (format writes
        ++ (codes ",\"text_len\":"
            ++ (format text_len
                ++ (codes ",\"source\":\""
                    ++ (source ++ (codes "\"," ++ (mem_cb_fields c ++ codes ",")))))))

abbrev pub text_key : Bytes
text_key = codes "\"text\":\""

unfoldable pub console_reply : Bytes → Bytes → Bytes
console_reply head esc = head ++ (text_key ++ (esc ++ codes "\"}}"))

unfoldable pub mem_reply : ℕ → ℕ → Bytes → Bytes
mem_reply phys len hex =
    codes "{\"ok\":true,\"result\":{\"phys\":"
    ++ (format phys
        ++ (codes ",\"len\":" ++ (format len ++ (codes ",\"hex\":\"" ++ (hex ++ codes "\"}}")))))
