-- ===== src/RequestHandler/Fields.antt =====
-- include/odb/mess/request-handler.hh: what a method of a handler is given. The methods take the fields of
-- a request by reference, which is how a field is read from the request and how it is set in it.
use odb.Prelude.Results.{Result, ok}
use odb.Serial.{SerialOutBuff, SerialInBuff}

pub record Field (R A : Type 0) : Type 0 where
  pub get : R → A
  pub set : A → R → R

abbrev pub field : {R A : Type 0} → (R → A) → (A → R → R) → Field R A
field get set = record { get = get; set = set }

-- A method that writes to `*_out`, and one that reads from `*_in`.
abbrev pub Sending : Type 0 → Type 0
Sending R = R → SerialOutBuff → Result SerialOutBuff

abbrev pub Receiving : Type 0 → Type 0
Receiving R = R → SerialInBuff → Result (R × SerialInBuff)

-- The methods with an empty body.
abbrev pub sends_nothing : {R : Type 0} → Sending R
sends_nothing r os = ok os

abbrev pub reads_nothing : {R : Type 0} → Receiving R
reads_nothing r is = ok (r, is)
