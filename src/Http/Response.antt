-- ===== src/Http/Response.antt =====
-- src/http.cpp: the class `Response`.
use klib.Base.{Bool, true, Bytes}
use klib.Base.Int.{ℤ, pos, ◌==ℤ◌}
use klib.Exception.{M}
use klib.Util.Files.{Disk, write_file}
use klib.Http.Request.{Response}

-- `HttpStatus::HTTP_STATUS_OK`
abbrev pub http_status_ok : ℤ
http_status_ok = pos 200

unfoldable pub ok_status : Response → Bool
unfolding ◌==ℤ◌
ok_status r = r.status ==ℤ http_status_ok

unfoldable pub save_to_file : Response → Bytes → M Disk (Unit {0})
unfolding write_file
save_to_file r path = write_file path true r.text
