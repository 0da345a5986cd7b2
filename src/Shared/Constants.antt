-- ===== src/Shared/Constants.antt =====
-- shared/constants.py. Times are whole milliseconds.
use computer_network_socket.Base.{ℕ, ◌+◌, ◌*◌, ◌<◌}

abbrev pub max_payload : ℕ
max_payload = 1024

-- struct.calcsize('!IIHHB')
abbrev pub header_size : ℕ
header_size = 13

abbrev pub buffer_size : ℕ
buffer_size = header_size + max_payload

abbrev pub timeout_ms : ℕ
timeout_ms = 300

abbrev pub window_size : ℕ
window_size = 8

abbrev pub dup_ack_threshold : ℕ
dup_ack_threshold = 3

abbrev pub data_max_retries : ℕ
data_max_retries = 10

abbrev pub fin_max_retries : ℕ
fin_max_retries = 10

abbrev pub fin_linger_timeout_ms : ℕ
fin_linger_timeout_ms = timeout_ms * 2

abbrev pub flag_syn : ℕ
flag_syn = 0b00000001

abbrev pub flag_ack : ℕ
flag_ack = 0b00000010

abbrev pub flag_fin : ℕ
flag_fin = 0b00000100

abbrev pub flag_data : ℕ
flag_data = 0b00001000

abbrev pub max_command_length : ℕ
max_command_length = 4096

-- One element of a Python `bytes` value.
abbrev pub IsByte : ℕ → Type 0
IsByte b = b < 256
