-- ===== src/Ssh.antt =====
-- pkg/ssh/cmd: the commands of an SSH session.
pub mod Git
pub mod Session
pub mod Commands
