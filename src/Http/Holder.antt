-- ===== src/Http/Holder.antt =====
-- transport/http/headerHolder/header.go: the header of a request, sealed into its path.
-- A string is the list of its bytes. The cipher, base64 and `struc` are parameters.
use vlite.Base.{ℕ, List, [], ◌++◌, Option, none, some, if◌then◌else◌}
use vlite.Proto.{Codec, Unpacked}

-- proto/wire.go: `HttpHeaderHolder`. The numbers are words of 64 bits, and of 32 for `conn_iter`.
pub record HttpHeaderHolder : Type 0 where
  pub masker : ℕ
  pub conn_id : List ℕ
  pub rand : List ℕ
  pub time : ℕ
  pub flags : ℕ
  pub conn_iter : ℕ

-- What an encoder of base64 has written after `Write`, and the bytes that it keeps for `Close`.
pub record Written : Type 0 where
  pub output : List ℕ
  pub held : List ℕ

-- `prepare` makes the cipher from the salt and the password. `write` and `close` are those of a new
-- encoder of base64, where `close` gives what it adds to the output; `none` is an error.
pub record HolderLibraries : Type 0 where
  pub seal : List ℕ → List ℕ → List ℕ → List ℕ
  pub open_sealed : List ℕ → List ℕ → List ℕ → Option (List ℕ)
  pub write : List ℕ → Option Written
  pub close : List ℕ → Option (List ℕ)
  pub decode : List ℕ → Option (List ℕ)
  pub header : Codec HttpHeaderHolder

pub record Processor : Type 0 where
  pub password : List ℕ
  pub salt : List ℕ

abbrev pub if_read : Unpacked HttpHeaderHolder → Option HttpHeaderHolder
if_read u = if u.no_error then some u.value else none

abbrev pub opened_header : HolderLibraries → Option (List ℕ) → Option HttpHeaderHolder
opened_header libs none = none
opened_header libs (some bytes) = if_read (libs.header.unpack bytes)

abbrev pub opened : HolderLibraries → Processor → Option (List ℕ) → Option HttpHeaderHolder
opened libs pc none = none
opened libs pc (some cont) = opened_header libs (libs.open_sealed pc.salt pc.password cont)

unfoldable pub open_holder : HolderLibraries → Processor → List ℕ → Option HttpHeaderHolder
open_holder libs pc input = opened libs pc (libs.decode input)

abbrev pub closed_output : List ℕ → Option (List ℕ) → List ℕ
closed_output output none = []
closed_output output (some rest) = output ++ rest

abbrev pub encoder_output : HolderLibraries → Option Written → List ℕ
encoder_output libs none = []
encoder_output libs (some w) = closed_output w.output (libs.close w.held)

-- An error gives the empty string.
unfoldable pub seal_holder : HolderLibraries → Processor → HttpHeaderHolder → List ℕ
seal_holder libs pc src =
    let packed = libs.header.pack src in
    if packed.no_error
    then encoder_output libs (libs.write (libs.seal pc.salt pc.password packed.bytes))
    else []
