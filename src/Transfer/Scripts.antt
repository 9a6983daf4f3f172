-- ===== src/Transfer/Scripts.antt =====
-- client/filetransfer.go: the PowerShell scripts of a transfer, the checks of its paths, and the
-- escaping of single quotes. filepath.Clean is a parameter.
use go_psrp.Common.{
  ℕ, Bool, true, false, ◌&&◌, ◌||◌, not, Option, none, some, [], ◌∷◌, ◌++◌, if◌then◌else◌,
  replicate, ◌==◌,
}
use go_psrp.Common.Text.{Text, codes, text_eq, is_empty, has_prefix, contains, base64, decimal}
use go_psrp.Common.Errors.{GoError, message}

unfoldable pub validate_paths : (Text → Text) → Text → Text → Option GoError
validate_paths clean local remote =
    if is_empty local
    then some (message (codes "local path cannot be empty"))
    else if contains local (codes "..") && not (text_eq (clean local) local)
    then some (message (codes "local path contains invalid traversal: " ++ local))
    else if is_empty remote
    then some (message (codes "remote path cannot be empty"))
    else if not (contains remote (codes ":")) && not (has_prefix remote (codes "\\\\"))
    then some (
        message
          (codes "remote path must be absolute (e.g., C:\\path or \\\\server\\share): " ++ remote))
    else if contains remote (codes "/../") || contains remote (codes "\\..\\")
    then some (message (codes "remote path contains invalid traversal: " ++ remote))
    else none

unfoldable pub sanitize_for_powershell : Text → Text
sanitize_for_powershell [] = []
sanitize_for_powershell (c ∷ s) =
    if c == b'\'' then b'\'' ∷ b'\'' ∷ sanitize_for_powershell s else c ∷ sanitize_for_powershell s

-- A line of a script behind a line break and tabs.
line : ℕ → Text → Text
line n s = b'\n' ∷ (replicate n b'\t' ++ s)

stop_on_error : Text
unfolding line
stop_on_error = line 2 (codes "$ErrorActionPreference = 'Stop'")

-- The lines that decode the path, in a try block and outside of one.
path_lines : Text → Text
unfolding line
path_lines path =
    line 3
      (codes "$pathBytes = [System.Convert]::FromBase64String('" ++ (base64 path ++ codes "')"))
    ++ line 3 (codes "$path = [System.Text.Encoding]::UTF8.GetString($pathBytes)")

path_line : ℕ → Text → Text
unfolding line
path_line tabs path = line tabs (
    codes "$path = [System.Text.Encoding]::UTF8.GetString([System.Convert]::FromBase64String('"
    ++ (base64 path ++ codes "'))"))

-- The end of a try block that reports an error.
catch_lines : Text → Text
unfolding line
catch_lines text =
    line 2 (codes "} catch {")
    ++ line 3 (codes "Write-Error \"" ++ (text ++ codes ": $_\""))
    ++ line 3 (codes "exit 1")
    ++ line 2 (codes "}")
    ++ line 1 []

unfoldable pub generate_offset_write_script : Text → ℕ → Text → Text
unfolding stop_on_error path_lines catch_lines line
generate_offset_write_script path offset chunk_b64 =
    stop_on_error
    ++ line 2 (codes "try {")
    ++ path_lines path
    ++ line 3 []
    ++ line 3 (codes "$bytes = [Convert]::FromBase64String('" ++ (chunk_b64 ++ codes "')"))
    ++ line 3 (
        codes "$stream = [IO.File]::Open($path, [IO.FileMode]::OpenOrCreate, "
        ++ codes "[IO.FileAccess]::Write, [IO.FileShare]::Write)")
    ++ line 3
        (codes "$stream.Seek(" ++ (decimal offset ++ codes ", [IO.SeekOrigin]::Begin) | Out-Null"))
    ++ line 3 (codes "$stream.Write($bytes, 0, $bytes.Length)")
    ++ line 3 (codes "$stream.Close()")
    ++ catch_lines (codes "Failed to write chunk at offset " ++ decimal offset)

unfoldable pub generate_preallocate_script : Text → ℕ → Text
unfolding stop_on_error path_lines catch_lines line
generate_preallocate_script path size =
    stop_on_error
    ++ line 2 (codes "try {")
    ++ path_lines path
    ++ line 3 (codes "$stream = [IO.File]::Create($path)")
    ++ line 3 (codes "$stream.SetLength(" ++ (decimal size ++ codes ")"))
    ++ line 3 (codes "$stream.Close()")
    ++ catch_lines (codes "Failed to pre-allocate file")

-- The script of copyFileStreaming, which writes its input to the file.
create_command : Bool → Text
create_command true =
    codes "$s = [System.IO.File]::Open($path, [System.IO.FileMode]::CreateNew, "
    ++ codes "[System.IO.FileAccess]::Write)"
create_command false = codes "$s = [System.IO.File]::Create($path)"

unfoldable pub streaming_script : Text → Bool → ℕ → Text
unfolding stop_on_error path_line create_command line
streaming_script path no_overwrite size =
    stop_on_error
    ++ path_line 2 path
    ++ line 2 (create_command no_overwrite)
    ++ line 2 (codes "$s.SetLength(" ++ (decimal size ++ codes ")"))
    ++ line 2 (codes "try {")
    ++ line 3 (codes "$input | ForEach-Object {")
    ++ line 4 (codes "$s.Write($_, 0, $_.Length)")
    ++ line 3 (codes "}")
    ++ line 2 (codes "} finally {")
    ++ line 3 (codes "$s.Close()")
    ++ line 2 (codes "}")
    ++ line 1 []

unfoldable pub streaming_hash_script : Text → Text
unfolding path_line line
streaming_hash_script path =
    line 3 (codes "$ErrorActionPreference = 'Stop'")
    ++ path_line 3 path
    ++ line 3 (codes "(Get-FileHash -Algorithm SHA256 -Path $path).Hash")
    ++ line 2 []

-- The scripts of FetchFile.
unfoldable pub size_script : Text → Text
unfolding stop_on_error path_lines catch_lines line
size_script path =
    stop_on_error
    ++ line 2 (codes "try {")
    ++ path_lines path
    ++ line 3 (codes "$file = Get-Item -LiteralPath $path -ErrorAction Stop")
    ++ line 3 (codes "$file.Length")
    ++ catch_lines (codes "Failed to get file info")

-- Its lines stand one tab deeper than those of the others.
unfoldable pub read_script : Text → ℕ → ℕ → Text
unfolding line
read_script path offset size =
    line 3 (codes "$ErrorActionPreference = 'Stop'")
    ++ line 3 (codes "try {")
    ++ line 4
        (codes "$pathBytes = [System.Convert]::FromBase64String('" ++ (base64 path ++ codes "')"))
    ++ line 4 (codes "$path = [System.Text.Encoding]::UTF8.GetString($pathBytes)")
    ++ line 4 (codes "$stream = [IO.File]::OpenRead($path)")
    ++ line 4
        (codes "$stream.Seek(" ++ (decimal offset ++ codes ", [IO.SeekOrigin]::Begin) | Out-Null"))
    ++ line 4 (codes "$buffer = New-Object byte[] " ++ decimal size)
    ++ line 4 (codes "$bytesRead = $stream.Read($buffer, 0, " ++ (decimal size ++ codes ")"))
    ++ line 4 (codes "$stream.Close()")
    ++ line 4 (codes "if ($bytesRead -gt 0) {")
    ++ line 5 (codes "[Convert]::ToBase64String($buffer, 0, $bytesRead)")
    ++ line 4 (codes "}")
    ++ line 3 (codes "} catch {")
    ++ line 4 (codes "Write-Error \"Failed to read chunk: $_\"")
    ++ line 4 (codes "exit 1")
    ++ line 3 (codes "}")
    ++ line 2 []

unfoldable pub fetch_hash_script : Text → Text
unfolding path_line line
fetch_hash_script path =
    line 3 (codes "$ErrorActionPreference = 'Stop'")
    ++ line 3 (codes "try {")
    ++ line 4
        (codes "$pathBytes = [System.Convert]::FromBase64String('" ++ (base64 path ++ codes "')"))
    ++ line 4 (codes "$path = [System.Text.Encoding]::UTF8.GetString($pathBytes)")
    ++ line 4 (codes "(Get-FileHash -Algorithm SHA256 -Path $path).Hash")
    ++ line 3 (codes "} catch {")
    ++ line 4 (codes "Write-Error \"Failed to verify checksum: $_\"")
    ++ line 4 (codes "exit 1")
    ++ line 3 (codes "}")
    ++ line 2 []

-- The scripts of copyFileParallelHvSocket.
unfoldable pub preallocate_shared_script : Text → ℕ → Text
unfolding stop_on_error path_line line
preallocate_shared_script path size =
    stop_on_error
    ++ path_line 2 path
    ++ line 2 (codes "$f = [System.IO.File]::Create($path)")
    ++ line 2 (codes "$f.SetLength(" ++ (decimal size ++ codes ")"))
    ++ line 2 (codes "$f.Close()")
    ++ line 1 []

unfoldable pub segment_script : Text → ℕ → Text
unfolding path_line line
segment_script path first =
    line 4 (codes "$ErrorActionPreference = 'Stop'")
    ++ path_line 4 path
    ++ line 4 (
        codes "$fs = [System.IO.File]::Open($path, [System.IO.FileMode]::Open, "
        ++ codes "[System.IO.FileAccess]::Write, [System.IO.FileShare]::ReadWrite)")
    ++ line 4 (
        codes "$fs.Seek(" ++ (decimal first ++ codes ", [System.IO.SeekOrigin]::Begin) | Out-Null"))
    ++ line 4 (codes "try {")
    ++ line 5 (codes "$input | ForEach-Object {")
    ++ line 6 (codes "$fs.Write($_, 0, $_.Length)")
    ++ line 5 (codes "}")
    ++ line 4 (codes "} finally {")
    ++ line 5 (codes "$fs.Close()")
    ++ line 4 (codes "}")
    ++ line 3 []
