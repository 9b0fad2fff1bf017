-- ===== src/Tests/Devices.antt =====
-- A platform for the examples: a device that answers every call.
use market_data_ingress.Base.{
  ℕ, ◌+◌, true, none, some, List, [], ◌∷◌, codes, equal, take, if◌then◌else◌, pos,
}
use market_data_ingress.Engine.Tensorrt.Calls
use market_data_ingress.Tests.Numbers.{natural, natural_float}

-- The handles given out so far, and what the host buffer for the input holds.
pub record Device : Type 0 where
  pub next : ℕ
  pub buffer : List ℕ

-- An identity network on four elements.
abbrev pub platform : Calls.Platform ℕ ℕ
platform = record {
  double = natural;
  float = natural_float;
  World = Device;
  perform = λ c w. (record w { next = w.next + 1 }, some w.next);
  capture_succeeded = λ w. true;
  elapsed_ms = λ w. 250;
  write_host = λ host elements w. record w { buffer = elements };
  read_host = λ host n w. take n w.buffer;
  file = λ path w. some (codes "engine");
  io_names = λ engine. some (codes "in") ∷ some (codes "out") ∷ [];
  io_mode =
      λ engine name. if equal name (codes "in") then Calls.IoMode.input else Calls.IoMode.output;
  is_float = λ engine name. true;
  shape = λ engine name. pos 1 ∷ pos 4 ∷ [];
  tensorrt_major = 10;
  tensorrt_minor = 3;
  tensorrt_patch = 0;
  runtime_version = λ w. some (pos 12060);
  driver_version = λ w. some (pos 12080);
  properties = λ w. none;
}
