-- ===== src/Supervisor.antt =====
-- The supervisor process, which runs the Java program: src/main/cpp/spartan.cpp. Messages is what it
-- does with a message, Invoke how a command comes to a Java method, Kinds how a method of any kind is
-- called, Entry the thread of the Java program, and Opening how its queue is opened. What the JVM
-- does in a call is a parameter.
pub mod Invoke
pub mod Messages
pub mod Opening
pub mod Jni
pub mod Kinds
pub mod Entry
