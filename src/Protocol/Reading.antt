-- ===== src/Protocol/Reading.antt =====
-- What a `mem_read` request of plugin/protocol.c answers when a vCPU thread comes by.
use qemu_mip.Prelude.{ℕ, ◌*◌, ◌≡◌, false, List, [], ◌∷◌, ◌++◌, Bytes, length, codes}
use qemu_mip.Protocol.Host.{Host}
use qemu_mip.Protocol.Print.{value, hex_decode}
use qemu_mip.Queue.{Read}
use qemu_mip.Queue.System.{System, Event, wake, begin_read, end_read}

-- one drain by a vCPU thread, and the wake-up of the socket thread
abbrev pub one_drain : Read → List Event
one_drain read = begin_read ∷ end_read 0 read ∷ wake false ∷ []

-- An answer to `mem_read` that tells of these bytes at this address: in it stand decimal digits that spell the
-- address and the number of bytes, and two hexadecimal digits for each byte that spell the bytes in order.
pub record IsMemAnswer (phys : ℕ) (bytes answer : Bytes) : Type 0 where
  pub address : Bytes
  pub count : Bytes
  pub text : Bytes
  pub answer_is :
      answer
      ≡ codes "{\"ok\":true,\"result\":{\"phys\":"
        ++ (address
            ++ (codes ",\"len\":" ++ (count ++ (codes ",\"hex\":\"" ++ (text ++ codes "\"}}")))))
  pub address_is : value 0 address ≡ phys
  pub count_is : value 0 count ≡ length bytes
  pub text_has : length text ≡ 2 * length bytes
  pub text_is : hex_decode text ≡ bytes
