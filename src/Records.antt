-- ===== src/Records.antt =====
-- The records that the BPF programs put on the event buffer: include/usbtrace/common.h, class.h,
-- uvc.h and the headers of src/modules/{urb,enum,power,lifecycle,hub}. Unsigned fields are
-- numbers, `__s32` fields integers, `char` arrays lists of bytes. `size_of_*` is `sizeof` under
-- the 64-bit ABI: natural alignment, padded to eight bytes.
mod Envelope
mod Core
mod Class
pub use Envelope.*
pub use Core.*
pub use Class.*
