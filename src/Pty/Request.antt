-- ===== src/Pty/Request.antt =====
-- pty.go: `Service.ResizePty`, and where a process keeps the path of its terminal's socket.
use Prim.Native.String.{◌++◌ as text_append}
use containerd_shim_systemd.Prelude.{
  ℕ, Bool, String, List, Option, none, some, str_eq, if◌then◌else◌,
}
use containerd_shim_systemd.Prelude.Assoc.{lookup, insert}
use containerd_shim_systemd.Process.{Process}
use containerd_shim_systemd.Task.{InitProcess}
use containerd_shim_systemd.Teardown.{state_dir}
use containerd_shim_systemd.Registry.{get_process}
use containerd_shim_systemd.Pty.Wire.{TtyError, sock_path_error}
use containerd_shim_systemd.Pty.Client.{Sockets, TtyControlClient, resize_pty}

-- What the file with the path of a socket gives.
pub data SockFile : Type 0 where
  path_of : String → SockFile
  missing unreadable : SockFile

-- `ReadFile`, `MkdirTemp`, `WriteFile` and `RemoveAll` as `ttySockPath` uses them.
pub record SockFiles (W : Type 0) : Type 0 where
  pub read_sock_file : W → String → SockFile × W
  pub mkdir_temp : W → Option String × W
  pub write_sock_file : W → String → String → Bool × W
  pub remove_dir : W → String → W

-- What a request ends in; a nil exec makes the method call panic.
pub data ResizeAnswer : Type 0 where
  not_found panics : ResizeAnswer
  answered : Option TtyError → ResizeAnswer

module _ (k : Sockets) (files : SockFiles (k.World)) where
  open k use {World}

  -- `ttySockPath`, by the directory of the process; `none` is an error.
  unfoldable pub tty_sock_path : World → String → Option String × World
  tty_sock_path w dir =
      let file = text_append dir "/tty.sock" in
      let (content, w1) = files.read_sock_file w file in
      let (tmp, w2) = files.mkdir_temp w1 in
      elim content [
        | path_of s ↦ (some s, w1)
        | unreadable ↦ (none, w1)
        | missing ↦ elim tmp [
          | none ↦ (none, w2)
          | some d ↦
              let s = text_append d "/s" in
              let (written, w3) = files.write_sock_file w2 file s in
              if written then (some s, w3) else (none, files.remove_dir w3 d)
        ]
      ]

  -- `ResizePTY` of either kind of process. The clients of the processes stand by the paths of their
  -- units.
  unfoldable pub resize_process :
      World
      → List (String × TtyControlClient)
      → Process
      → String
      → ℕ
      → ℕ
      → World × List (String × TtyControlClient) × Option TtyError
  resize_process w clients p dir width height =
      let (path, w') = tty_sock_path w dir in
      elim path [
        | none ↦ (w', clients, some sock_path_error)
        | some s ↦
            let (w'', control, e) =
              resize_pty k w' p.terminal (lookup p.path_name clients) width height s in
            elim control [
              | none ↦ (w'', clients, e)
              | some c ↦ (w'', insert p.path_name c clients, e)
            ]
      ]

  -- `Service.ResizePty`.
  unfoldable pub resize_pty_request :
      World
      → List (String × TtyControlClient)
      → List (String × InitProcess)
      → String
      → String
      → ℕ
      → ℕ
      → World × List (String × TtyControlClient) × ResizeAnswer
  resize_pty_request w clients processes key exec_id width height =
      elim (get_process processes key) [
        | none ↦ (w, clients, not_found)
        | some p ↦
            if str_eq exec_id ""
            then (let (w', clients', e) =
                  resize_process w clients p.process p.bundle width height in
                (w', clients', answered e))
            else elim (get_process p.execs exec_id) [
              | none ↦ (w, clients, panics)
              | some e ↦
                  let (w', clients', err) =
                    resize_process w clients e.process (state_dir e) width height in
                  (w', clients', answered err)
            ]
      ]
