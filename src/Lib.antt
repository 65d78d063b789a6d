-- ===== src/Lib.antt =====
-- klib, a C++ library of wrappers around curl, SQLite, libarchive, Zstandard and others.
--
-- The parts stand beside each other. Each wraps a C library in a class or in functions that check
-- every status, throw one of the exceptions of include/klib/exception.h, and free what they
-- hold by scope guards. They share only the exceptions, and a few use another part: src/sql.cpp compresses
-- blobs by compress_data of src/archive.cpp, and src/http.cpp escapes by url_encode of src/url.cpp.
-- src/crypto.cpp and src/hash.cpp take their random bytes, and src/hash.cpp its hexadecimal texts,
-- from src/util.cpp, as src/archive.cpp does the reading of files and the working directory.
--
-- Base: byte strings, dictionaries, machine integers, Boolean tests. Exception: what a call does (it
--   returns, throws or ends the process) and code over a state that keeps it across an exception,
--   with SCOPE_EXIT and SCOPE_FAIL; Exception/Triple has rules on the state of both outcomes, and
--   Exception/Total on code that returns.
-- Unicode: include/klib/unicode.h (Classes), the trimming functions of src/unicode.cpp (Trim), with
--   whitespace at an end of a text as a relation (Blank), and the conversions (Convert).
-- Archive: src/archive.cpp. Zstd has compress_data and decompress_data, Format the set-up of a writer
--   and a reader, Names the default name of an archive, Folder the first component of a path,
--   Transfer the copy of an entry's data, Entries compress, decompress and outermost_folder_name;
--   Entries/Frames has the rules for code that closes what it opens, for Written and Closed;
--   Entries/Listing and Entries/Extraction look at archives that can be read to their end.
-- Sql: src/sql.cpp. Query is SqlQueryImpl with its members db_, stmt_ and column_count_, Column is
--   ColumnImpl, Database is SqlDatabaseImpl; Database/Exits is about a block with a local query.
--   A query runs over its members and the library's state.
-- Http: src/http.cpp. Request has the helpers and get, Post the three POST requests, Setup the
--   constructor and the options (Verify looks at the two that check a server), Response the class of
--   that name, Status the tables of include/klib/detail/http-inl.h. Request/Slist has what libcurl promises of
--   header lists, Request/Sent what a handle holds when a transfer starts, and Delivery what get sends and gives back.
-- Url: src/url.cpp. Parse is the class URL, Query the reading of its query.
-- Util: src/util.cpp. Process has exec, pipe and wait_for_child_process, Files the files and the working
--   directory, FileName make_file_name_legal and split_str, Hex the hexadecimal text, Random
--   generate_random_bytes, Env get_env and uuid.
-- Crypto: src/crypto.cpp. Evp is the cipher context of BoringSSL as a parameter, and what a cipher
--   promises of a session; Cipher is aes_256_crypt, Aes the functions that call it.
-- Hash: src/hash.cpp. Digest has the checksums and digests, Password the functions on Argon2.
-- Html: src/html.cpp. Image: src/image.cpp, with the memory of an RGB in Image/Memory. Base64:
--   src/base64.cpp. Mime: src/mime.cpp. Font: src/font.cpp. Markdown: src/markdown.cpp.
-- QrCode: src/qr_code.cpp, with the image (Image) and the text (Text) of a symbol.
--
-- The C libraries are records of functions over a state of an unknown type: Archive/Libarchive,
-- Archive/Zstd, Sql/Sqlite, Http/Curl, Url/CurlUrl, Crypto/Evp, and Boost, utfcpp, simdutf, fmt, Argon2
-- and the coders in the files that call them. What their manuals promise is a record of laws beside
-- each (IsZstd, IsSqlite, IsCurl, ...), which a theorem that needs it takes; Tests has an instance.
--
-- A class that only forwards to its implementation has no definition of its own. A dictionary
-- is the list of its entries in the order of iteration. `double` is a type of the SQLite interface.
-- Lengths are numbers with no bound except where one is written, on a machine whose sizes have 64 bits;
-- `std::int32_t` results wrap, and so does a size that is handed to an `int`. The size of `long` is a
-- parameter of Http/Curl. A path means a file by a number (Util/Files), so that two paths may mean one.
--
-- A write outside a buffer, a read outside a text or of a variable that has no value, and an overflow of a
-- signed number that the code does not rule out, end the process in the model (`terminated`).
--
-- Loops over a list recurse on it. The loops of the trimming functions, of pipe and of Crypto/Cipher run
-- on a fuel of the length of the text, and each round takes a byte at least; that of QrCode/Text runs on
-- the width, and each round takes two rows. The loops of Archive/Folder, Archive/Transfer and
-- Archive/Entries need not end, and give no result when the fuel runs out.
--
-- Not modelled: logging, except that `error` of include/klib/log.h ends the process; the version numbers;
-- the copies of other libraries in third_party, whose functions are parameters.
pub mod Base
pub mod Base64
pub mod Crypto
pub mod Exception
pub mod Unicode
pub mod Archive
pub mod Sql
pub mod Util
pub mod Image
pub mod QrCode
pub mod Url
pub mod Hash
pub mod Font
pub mod Html
pub mod Markdown
pub mod Mime
pub mod Http
mod Tests
