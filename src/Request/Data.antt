-- ===== src/Request/Data.antt =====
-- libmsrv/src/msrvrequest.cc, class DataRequest: the buffer with a request's data. The buffer comes from
-- malloc, for which C++ leaves `delete` undefined: what the platform's `delete` does with it is an
-- argument.
use magicserver.Prelude.{ℕ, Outcome, ok, ◌>>=◌}
use magicserver.Memory.{Ptr, Memory, null}

-- The platform's operator delete.
abbrev pub Delete : Type 0
Delete = Ptr → Memory ℕ → Outcome (Memory ℕ)

pub record DataRequest : Type 0 where
  pub buffer : Ptr
  pub data_len : ℕ

-- DataRequest::DataRequest
abbrev pub new_data_request : DataRequest
new_data_request = record { buffer = null; data_len = 0 }

-- void DataRequest::setData (char* pData, int len)
unfoldable pub set_data :
    Delete → Ptr → ℕ → DataRequest → Memory ℕ → Outcome (DataRequest × Memory ℕ)
set_data delete p len r m = do
  m₁ ← delete r.buffer m
  ok (record { buffer = p; data_len = len }, m₁)

-- DataRequest::~DataRequest
unfoldable pub delete_data : Delete → DataRequest → Memory ℕ → Outcome (Memory ℕ)
delete_data delete r m = delete r.buffer m
